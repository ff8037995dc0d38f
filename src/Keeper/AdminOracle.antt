-- ===== src/Keeper/AdminOracle.antt =====
-- The admin price pusher (packages/keeper/src/workers/admin-oracle-pusher.ts): its timestamps.
-- A price is of any type, with the source's validity test and its conversion to 18 decimals as
-- parameters (both are floating point); `none` is a throw of the conversion.
pub mod Rising
pub mod Ordered
pub mod Overlap
mod Tests
use Prim.Native.String.{String}
use text.Mathlib.Text.{◌==◌ as str_eq}
use stellax.Base.{
  ℕ, ◌+◌, ◌≡◌, Bool, true, false, Option, none, some, List, [], ◌∷◌, ◌++◌, ltb, if◌then◌else◌, max,
}
use stellax.Base.Int.{ℤ, pos}
use stellax.Keeper.Chain.{Chain, Invocation, admin_push_price}

-- `Map<string, bigint>`
abbrev pub Stamps : Type 0
Stamps = List (String × ℕ)

abbrev pub get : String → Stamps → Option ℕ
get k [] = none
get k ((j, v) ∷ m) = if str_eq j k then some v else get k m

abbrev pub put : String → ℕ → Stamps → Stamps
put k v [] = (k, v) ∷ []
put k v ((j, w) ∷ m) = if str_eq j k then (k, v) ∷ m else (j, w) ∷ put k v m

-- `onStart` for one asset: the stored timestamp, or none where `get_price` throws
unfoldable pub baseline : (now : ℕ) → Option ℕ → ℕ
baseline now (some stored) = stored + 1
baseline now none = now + 86_400_000

unfoldable pub on_start : (now : ℕ) → (String → Option ℕ) → List String → Stamps → Stamps
unfolding baseline
on_start now stored [] m = m
on_start now stored (a ∷ assets) m = on_start now stored assets (put a (baseline now (stored a)) m)

-- the readings of `Date.now()` while one asset is prepared, in their order
pub record Readings : Type 0 where
  pub fallback : ℕ
  pub tested : ℕ
  pub used : ℕ

abbrev pub or_else : Option ℕ → ℕ → ℕ
or_else none d = d
or_else (some v) d = v

-- `thisPkgTs`
unfoldable pub pkg_ts : Readings → Option ℕ → ℕ
pkg_ts r last =
    let prev = or_else last r.fallback in if ltb r.tested (prev + 1) then prev + 1 else r.used

pub record Push : Type 0 where
  pub asset : String
  pub price18 : ℤ
  pub ts : ℕ

module _ {Price : Type 0} (is_valid : Price → Bool) (to_fixed18 : Price → Option ℤ) where
  -- The part of each asset's body before its first `await` runs for all assets first. An asset with no
  -- valid price is skipped, and one whose conversion throws is caught.
  unfoldable pub plan :
      (String → Readings) → (String → Option Price) → Stamps → List String → List Push
  unfolding pkg_ts
  plan clock prices last [] = []
  plan clock prices last (a ∷ assets) =
      let rest = plan clock prices last assets in
      elim (prices a) [
        | none ↦ rest
        | some p ↦
            if is_valid p
            then elim (to_fixed18 p) [
              | none ↦ rest
              | some price18 ↦
                  record { asset = a; price18 = price18; ts = pkg_ts (clock a) (get a last) } ∷ rest
            ]
            else rest
      ]

abbrev pub push_call : String → Push → Invocation
push_call oracle p = record {
  contract = oracle;
  call = admin_push_price p.asset p.price18 (pos p.ts);
  max_retries = 3;
}

-- The pushes then go through the client's queue one after the other; an accepted one is recorded.
unfoldable pub push_all : {W : Type 0} → Chain W → String → List Push → Stamps → W → Stamps × W
push_all chain oracle [] last w = (last, w)
push_all chain oracle (p ∷ ps) last w =
    let (done, w') = chain (push_call oracle p) w in
    push_all chain oracle ps (if done then put p.asset p.ts last else last) w'

-- what one `tick` is given
pub record Input (Price : Type 0) : Type 0 where
  pub clock : String → Readings
  pub prices : String → Option Price

-- any number of ticks, one after the other
unfoldable pub run_ticks :
    {W Price : Type 0}
    → (Price → Bool)
    → (Price → Option ℤ)
    → Chain W
    → String
    → List String
    → List (Input Price)
    → Stamps
    → W
    → Stamps × W
unfolding plan push_all
run_ticks is_valid to_fixed18 chain oracle assets [] last w = (last, w)
run_ticks is_valid to_fixed18 chain oracle assets (i ∷ is) last w =
    let (last', w') =
      push_all chain oracle (plan is_valid to_fixed18 i.clock i.prices last assets) last w in
    run_ticks is_valid to_fixed18 chain oracle assets is last' w'

-- The ticks of a worker may overlap, since a tick that times out goes on. Then a tick plans its pushes
-- while pushes of earlier ticks wait in the client's queue.
pub data Moment (Price : Type 0) : Type 0 where
  planned : Input Price → Moment Price
  settled : Moment Price

-- the stamps, and the pushes that wait
pub record Pusher : Type 0 where
  pub last : Stamps
  pub queue : List Push

-- the first push of the queue is made
unfoldable pub settle : {W : Type 0} → Chain W → String → List Push → Stamps → W → Pusher × W
settle chain oracle [] last w = (record { last = last; queue = [] }, w)
settle chain oracle (p ∷ ps) last w =
    let (done, w') = chain (push_call oracle p) w in
    (record { last = if done then put p.asset p.ts last else last; queue = ps }, w')

-- any interleaving of ticks that plan and pushes that are made
unfoldable pub run_moments :
    {W Price : Type 0}
    → (Price → Bool)
    → (Price → Option ℤ)
    → Chain W
    → String
    → List String
    → List (Moment Price)
    → Pusher
    → W
    → Pusher × W
unfolding plan settle
run_moments is_valid to_fixed18 chain oracle assets [] s w = (s, w)
run_moments is_valid to_fixed18 chain oracle assets (planned i ∷ ms) s w =
    run_moments is_valid to_fixed18 chain oracle assets ms
      (record s { queue = s.queue ++ plan is_valid to_fixed18 i.clock i.prices s.last assets }) w
run_moments is_valid to_fixed18 chain oracle assets (settled ∷ ms) s w =
    let (s', w') = settle chain oracle s.queue s.last w in
    run_moments is_valid to_fixed18 chain oracle assets ms s' w'
