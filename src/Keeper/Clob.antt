-- ===== src/Keeper/Clob.antt =====
-- The order matcher (packages/keeper/src/workers/clob-matcher.ts).
-- Prices and sizes are the source's bigints; an order id is a u64 and a market id a u32.
pub mod Uses
pub mod Sound
pub mod Greedy
mod Tests
use Prim.Native.String.{String}
use Prim.Native.Nat.{compare}
use text.Mathlib.Text.{◌==◌ as str_eq}
use stellax.Base.{
  ℕ, Ordering, ◌≡◌, Bool, true, false, not, Option, none, some, List, [], ◌∷◌, ◌++◌, map, ltb, leb,
  ◌==◌, if◌then◌else◌, length, filter, sort,
}
use stellax.Base.Int.{ℤ, compare_ℤ, leb_ℤ}
use stellax.Keeper.Chain.{Chain, Invocation, settle_matched_orders, Tally, no_tally, try_each}

pub record OpenOrder : Type 0 where
  pub order_id : ℕ
  pub trader : String
  pub market_id : ℕ
  pub is_long : Bool
  pub price : ℤ
  pub size : ℤ
  pub filled_size : ℤ
  pub expires_at : ℕ

pub record MatchPair : Type 0 where
  pub buy : OpenOrder
  pub sell : OpenOrder

-- `o.filledSize >= o.size`
abbrev pub is_exhausted : OpenOrder → Bool
is_exhausted o = leb_ℤ o.size o.filled_size

-- A `Map` keyed by market in insertion order; a bucket grows at its end.
pub add_to_market : OpenOrder → List (ℕ × List OpenOrder) → List (ℕ × List OpenOrder)
add_to_market o [] = (o.market_id, o ∷ []) ∷ []
add_to_market o ((id, bucket) ∷ markets) =
    if id == o.market_id
    then (id, bucket ++ (o ∷ [])) ∷ markets
    else (id, bucket) ∷ add_to_market o markets

-- the first loop of `matchBook`
pub group_by_market : List OpenOrder → List (ℕ × List OpenOrder) → List (ℕ × List OpenOrder)
unfolding add_to_market
group_by_market [] markets = markets
group_by_market (o ∷ orders) markets =
    group_by_market orders (if is_exhausted o then markets else add_to_market o markets)

-- the comparators of the two sorts, and `cmp(a, b) <= 0`
abbrev pub compare_bids : OpenOrder → OpenOrder → Ordering
compare_bids a b = elim (compare_ℤ a.price b.price) [
  | Ordering.eq ↦ compare a.order_id b.order_id
  | Ordering.lt ↦ Ordering.gt
  | Ordering.gt ↦ Ordering.lt
]

abbrev pub compare_asks : OpenOrder → OpenOrder → Ordering
compare_asks a b = elim (compare_ℤ a.price b.price) [
  | Ordering.eq ↦ compare a.order_id b.order_id
  | Ordering.lt ↦ Ordering.lt
  | Ordering.gt ↦ Ordering.gt
]

abbrev pub not_after : Ordering → Bool
not_after Ordering.gt = false
not_after _ = true

abbrev pub bid_before : OpenOrder → OpenOrder → Bool
bid_before a b = not_after (compare_bids a b)

abbrev pub ask_before : OpenOrder → OpenOrder → Bool
ask_before a b = not_after (compare_asks a b)

pub bids_of : List OpenOrder → List OpenOrder
bids_of market = sort bid_before (filter (λ o. o.is_long) market)

pub asks_of : List OpenOrder → List OpenOrder
asks_of market = sort ask_before (filter (λ o. not o.is_long) market)

-- the `while` loop: the lists are the orders from `i` and from `j` on
pub walk : ℕ → List MatchPair → List OpenOrder → List OpenOrder → List MatchPair
walk max_pairs pairs [] asks = pairs
walk max_pairs pairs (bid ∷ bids) [] = pairs
walk max_pairs pairs (bid ∷ bids) (ask ∷ asks) = elim (ltb (length pairs) max_pairs) [
  | false ↦ pairs
  | true ↦ elim (str_eq bid.trader ask.trader) [
    | true ↦ elim (ltb ask.order_id bid.order_id) [
      | true ↦ walk max_pairs pairs bids (ask ∷ asks)
      | false ↦ walk max_pairs pairs (bid ∷ bids) asks
    ]
    | false ↦ elim (leb_ℤ ask.price bid.price) [
      | true ↦ walk max_pairs (pairs ++ (record { buy = bid; sell = ask } ∷ [])) bids asks
      | false ↦ pairs
    ]
  ]
]

-- the loop over the markets
pub match_markets : ℕ → List MatchPair → List (ℕ × List OpenOrder) → List MatchPair
unfolding walk bids_of asks_of
match_markets max_pairs pairs [] = pairs
match_markets max_pairs pairs ((id, market) ∷ markets) =
    let pairs' = walk max_pairs pairs (bids_of market) (asks_of market) in
    let rest = match_markets max_pairs pairs' markets in
    if leb max_pairs (length pairs') then pairs' else rest

pub match_book : List OpenOrder → ℕ → List MatchPair
unfolding group_by_market match_markets
match_book orders max_pairs = match_markets max_pairs [] (group_by_market orders [])

abbrev pub settle_call : String → MatchPair → Invocation
settle_call clob_contract pair = record {
  contract = clob_contract;
  call = settle_matched_orders pair.buy.order_id pair.sell.order_id;
  max_retries = 1;
}

abbrev pub default_max_fills : ℕ
default_max_fills = 50

abbrev pub max_fills : Option ℕ → ℕ
max_fills none = default_max_fills
max_fills (some n) = n

-- `tick` on the snapshot that the book returns; with no pairs nothing is called
pub tick : {W : Type 0} → Chain W → String → Option ℕ → List OpenOrder → W → Tally × W
unfolding match_book
tick chain clob_contract max_fills_per_tick orders w =
    try_each chain
      (map (settle_call clob_contract) (match_book orders (max_fills max_fills_per_tick))) no_tally
      w
