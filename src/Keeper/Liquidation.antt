-- ===== src/Keeper/Liquidation.antt =====
-- The liquidation bot (packages/keeper/src/workers/liquidation-bot.ts).
pub mod Order
mod Tests
use Prim.Native.String.{String}
use stellax.Base.{
  ℕ, zero, suc, ◌+◌, ◌-◌, ◌^◌, ◌≡◌, Bool, true, false, not, ◌&&◌, Option, none, some, List, [], ◌∷◌,
  map, ltb, leb, ◌==◌, if◌then◌else◌, length, filter, sort,
}
use stellax.Base.Int.{ℤ, pos, leb_ℤ}
use stellax.Indexer.Rows.{Text, same_text}
use stellax.Keeper.Chain.{Chain, Invocation, liquidate, Tally, no_tally, try_each}

pub record PositionLike : Type 0 where
  pub position_id : ℕ
  pub user : Text
  pub market_id : ℕ

-- the ratio is `none` where the answer has no such member
pub record Health : Type 0 where
  pub margin_ratio_bps : Option ℤ
  pub liquidatable : Bool

-- `stellar.simulate`: `none` where it throws or returns no object
abbrev pub Simulate : Type 0
Simulate = Text → Option Health

-- `Array.from(new Set(users))`: each user once, in the order of the first occurrences
abbrev pub seen : Text → List Text → Bool
seen u [] = false
seen u (x ∷ xs) = if same_text x u then true else seen u xs

unfoldable pub distinct : List Text → List Text → List Text
distinct before [] = []
distinct before (u ∷ us) =
    let rest = distinct (u ∷ before) us in if seen u before then rest else u ∷ rest

-- the loop that fills the map `health`
unfoldable pub gather : Simulate → List Text → List (Text × Health)
gather simulate [] = []
gather simulate (u ∷ us) = elim (simulate u) [
  | none ↦ gather simulate us
  | some h ↦ (u, h) ∷ gather simulate us
]

-- `health.get(user)`
abbrev pub get : Text → List (Text × Health) → Option Health
get u [] = none
get u ((x, h) ∷ rest) = if same_text x u then some h else get u rest

abbrev pub max_safe_integer : ℕ
max_safe_integer = 2 ^ 53 - 1

abbrev or_max : Option ℤ → ℤ
or_max none = pos max_safe_integer
or_max (some r) = r

-- `health.get(user)?.marginRatioBps ?? Number.MAX_SAFE_INTEGER`
abbrev pub ratio_of : Option Health → ℤ
ratio_of none = pos max_safe_integer
ratio_of (some h) = or_max h.margin_ratio_bps

abbrev pub is_liquidatable : Option Health → Bool
is_liquidatable none = false
is_liquidatable (some h) = h.liquidatable

-- `undefined <= x` is false
abbrev at_most : ℤ → Option ℤ → Bool
at_most threshold none = false
at_most threshold (some r) = leb_ℤ r threshold

abbrev is_near : ℤ → Option Health → Bool
is_near threshold none = false
is_near threshold (some h) = not h.liquidatable && at_most threshold h.margin_ratio_bps

-- the map of the healths
abbrev pub health_of : Simulate → List PositionLike → List (Text × Health)
health_of simulate positions =
    gather simulate (distinct [] (map (λ (p : PositionLike). p.user) positions))

-- `cmp(a, b) <= 0`
abbrev pub not_after : List (Text × Health) → PositionLike → PositionLike → Bool
not_after health a b = leb_ℤ (ratio_of (get a.user health)) (ratio_of (get b.user health))

unfoldable pub candidates : Simulate → List PositionLike → List PositionLike
unfolding distinct gather
candidates simulate positions =
    let health = health_of simulate positions in
    sort (not_after health)
      (filter (λ (p : PositionLike). is_liquidatable (get p.user health)) positions)

-- the positions that the last step reports
abbrev pub near_liquidation : Simulate → ℤ → List PositionLike → List PositionLike
near_liquidation simulate threshold positions =
    filter (λ (p : PositionLike). is_near threshold (get p.user (health_of simulate positions)))
      positions

abbrev pub liquidate_call : String → PositionLike → Invocation
liquidate_call risk p = record { contract = risk; call = liquidate p.position_id; max_retries = 1 }

pub record Report : Type 0 where
  pub tally : Tally
  pub alert : Bool

-- `tick`; `alert` says whether a warning is sent.
unfoldable pub tick :
    {W : Type 0} → Chain W → String → Simulate → List PositionLike → W → Report × W
unfolding candidates
tick chain risk simulate positions w =
    let found = candidates simulate positions in
    let (t, w') = try_each chain (map (liquidate_call risk) found) no_tally w in
    (record { tally = t; alert = ltb 0 (length found) && (t.ok == 0) }, w')
