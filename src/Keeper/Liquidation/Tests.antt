-- ===== src/Keeper/Liquidation/Tests.antt =====
-- The liquidation bot with three positions of two users.
use stellax.Base.{
  ℕ, suc, ◌≡◌, refl, true, false, none, some, List, [], ◌∷◌, filter, sort, subst, if◌then◌else◌,
}
use stellax.Base.Int.{pos, negsuc}
use stellax.Indexer.Rows.{Text, same_text}
use stellax.Keeper.Chain.{Chain, try_each}
use stellax.Keeper.Liquidation.{PositionLike, Health, Simulate, distinct, gather, candidates, tick}
use stellax.Keeper.Liquidation.Order.{due, candidates-as_listed}

abbrev position : ℕ → Text → PositionLike
position id user = record { position_id = id; user = user; market_id = 1 }

abbrev positions : List PositionLike
positions =
    position 1 (b'A' ∷ [])
    ∷ position 2 (b'B' ∷ [])
    ∷ position 3 (b'A' ∷ [])
    ∷ position 4 (b'C' ∷ [])
    ∷ []

abbrev health : Simulate
health user =
    if same_text user (b'A' ∷ [])
    then some (record { margin_ratio_bps = some (pos 90); liquidatable = true })
    else if same_text user (b'B' ∷ [])
    then some (record { margin_ratio_bps = some (negsuc 9); liquidatable = true })
    else none

abbrev failing : Chain ℕ
failing i n = (false, suc n)

picks :
    candidates health positions
    ≡ position 2 (b'B' ∷ []) ∷ position 1 (b'A' ∷ []) ∷ position 3 (b'A' ∷ []) ∷ []
unfolding candidates distinct gather sort same_text
picks = refl

warns : (tick failing "risk" health positions 0).0.alert ≡ true
unfolding tick candidates distinct gather sort same_text try_each
warns = refl

-- the contract's answers have no such member
abbrev without_ratio : Simulate
without_ratio user =
    some (record { margin_ratio_bps = none; liquidatable = same_text user (b'B' ∷ []) })

candidates-as_listed_example :
    candidates without_ratio positions ≡ filter (due without_ratio) positions
candidates-as_listed_example =
    candidates-as_listed without_ratio positions
      (λ u h e. subst (λ (k : Health). k.margin_ratio_bps ≡ none) (same e) refl)
  where
    same : {a b : Health} → some a ≡ some b → a ≡ b
    same p = cc
