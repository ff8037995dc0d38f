-- ===== src/Keeper/Clob/Uses.antt =====
-- How often the pairs of `matchBook` use an order, and how many pairs there are.
use stellax.Base.{
  ℕ, ◌+◌, ◌≤◌, ◌≡◌, Bool, not, List, [], ◌∷◌, ◌++◌, arith, if◌then◌else◌, inl, inr, Bool-cases,
  length, length-append, filter, count, count-append, count-filter, count-sort,
}
use stellax.Keeper.Clob.{
  OpenOrder, MatchPair, is_exhausted, add_to_market, group_by_market, bid_before, ask_before,
  bids_of, asks_of, walk, match_markets, match_book,
}

-- The number of places among the pairs at which an order that passes the test stands.
abbrev pub uses : (OpenOrder → Bool) → List MatchPair → ℕ
uses p [] = 0
uses p (pair ∷ pairs) =
    (if p pair.buy then 1 else 0) + (if p pair.sell then 1 else 0) + uses p pairs

abbrev markets_count : (OpenOrder → Bool) → List (ℕ × List OpenOrder) → ℕ
markets_count p [] = 0
markets_count p ((id, market) ∷ markets) = count p market + markets_count p markets

module _ (p : OpenOrder → Bool) where
  uses-append : (xs ys : List MatchPair) → uses p (xs ++ ys) ≡ uses p xs + uses p ys
  uses-append [] ys = omega arith
  uses-append (x ∷ xs) ys = omega (arith, uses-append xs ys)

  count-add_to_market :
      (o : OpenOrder) (markets : List (ℕ × List OpenOrder))
      → markets_count p (add_to_market o markets) ≡ (if p o then 1 else 0) + markets_count p markets
  unfolding add_to_market
  count-add_to_market o [] = omega arith
  count-add_to_market o ((id, bucket) ∷ markets) =
      ground (arith, count-append p bucket (o ∷ []), count-add_to_market o markets)

  count-group_by_market :
      (orders : List OpenOrder) (markets : List (ℕ × List OpenOrder))
      → markets_count p (group_by_market orders markets) ≤ count p orders + markets_count p markets
  unfolding group_by_market
  count-group_by_market [] markets = omega arith
  count-group_by_market (o ∷ orders) markets = elim (Bool-cases (is_exhausted o)) [
    | inl e ↦ rw e (omega (arith, count-group_by_market orders markets))
    | inr e ↦ rw e (
        omega (
          arith,
          count-group_by_market orders (add_to_market o markets),
          count-add_to_market o markets,
        ))
  ]

  count-sides :
      (market : List OpenOrder)
      → count p (bids_of market) + count p (asks_of market) ≡ count p market
  unfolding bids_of asks_of
  count-sides market = omega (
    arith,
    count-sort bid_before p (filter (λ o. o.is_long) market),
    count-sort ask_before p (filter (λ o. not o.is_long) market),
    count-filter p (λ o. o.is_long) market,
  )

  uses-walk :
      (max_pairs : ℕ) (pairs : List MatchPair) (bids asks : List OpenOrder)
      → uses p (walk max_pairs pairs bids asks) ≤ uses p pairs + count p bids + count p asks
  unfolding walk
  uses-walk m pairs [] asks = omega arith
  uses-walk m pairs (bid ∷ bids) [] = omega arith
  uses-walk m pairs (bid ∷ bids) (ask ∷ asks) =
      let one : List MatchPair = record { buy = bid; sell = ask } ∷ [] in
      ground (
        arith,
        uses-walk m pairs bids (ask ∷ asks),
        uses-walk m pairs (bid ∷ bids) asks,
        uses-walk m (pairs ++ one) bids asks,
        uses-append pairs one,
      )

  uses-match_markets :
      (max_pairs : ℕ) (pairs : List MatchPair) (markets : List (ℕ × List OpenOrder))
      → uses p (match_markets max_pairs pairs markets) ≤ uses p pairs + markets_count p markets
  unfolding match_markets
  uses-match_markets m pairs [] = omega arith
  uses-match_markets m pairs ((id, market) ∷ markets) =
      let next = walk m pairs (bids_of market) (asks_of market) in
      ground (
        arith,
        uses-walk m pairs (bids_of market) (asks_of market),
        count-sides market,
        uses-match_markets m next markets,
      )

  -- Whatever test the orders are told apart by, the pairs use no more orders that pass it than the
  -- snapshot holds. With the test "has this id" and distinct ids, no order is settled twice in a tick,
  -- neither on one side nor on both.
  pub uses-match_book :
      (orders : List OpenOrder) (max_pairs : ℕ)
      → uses p (match_book orders max_pairs) ≤ count p orders
  unfolding match_book
  uses-match_book orders m =
      omega (
        arith,
        uses-match_markets m [] (group_by_market orders []),
        count-group_by_market orders [],
      )

length-walk :
    (max_pairs : ℕ) (pairs : List MatchPair) (bids asks : List OpenOrder)
    → length pairs ≤ max_pairs
    → length (walk max_pairs pairs bids asks) ≤ max_pairs
unfolding walk
length-walk m pairs [] asks h = h
length-walk m pairs (bid ∷ bids) [] h = h
length-walk m pairs (bid ∷ bids) (ask ∷ asks) h =
    let one : List MatchPair = record { buy = bid; sell = ask } ∷ [] in
    ground (
      arith,
      length-walk m pairs bids (ask ∷ asks),
      length-walk m pairs (bid ∷ bids) asks,
      length-walk m (pairs ++ one) bids asks,
      length-append pairs one,
    )

length-match_markets :
    (max_pairs : ℕ) (pairs : List MatchPair) (markets : List (ℕ × List OpenOrder))
    → length pairs ≤ max_pairs
    → length (match_markets max_pairs pairs markets) ≤ max_pairs
unfolding match_markets
length-match_markets m pairs [] h = h
length-match_markets m pairs ((id, market) ∷ markets) h =
    let next = walk m pairs (bids_of market) (asks_of market) in
    ground (
      arith,
      length-walk m pairs (bids_of market) (asks_of market) h,
      length-match_markets m next markets,
    )

-- One call makes at most `max_pairs` pairs, over all markets together.
pub length-match_book :
    (orders : List OpenOrder) (max_pairs : ℕ) → length (match_book orders max_pairs) ≤ max_pairs
unfolding match_book
length-match_book orders m = length-match_markets m [] (group_by_market orders []) (omega arith)
