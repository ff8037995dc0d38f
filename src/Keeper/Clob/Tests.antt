-- ===== src/Keeper/Clob/Tests.antt =====
-- The matcher at a small book: two markets, a self-match, an exhausted order.
use stellax.Base.{
  ◌⊎◌, ℕ, ◌≤◌, ◌≡◌, refl, true, false, none, List, [], ◌∷◌, arith, All, take, drop, IsSorted, map,
  sort,
}
use stellax.Base.Int.{pos}
use stellax.Keeper.Chain.{Chain, Invocation, try_each}
use stellax.Keeper.Clob.{
  OpenOrder, MatchPair, match_book, walk, bids_of, asks_of, bid_before, ask_before, tick,
}
use stellax.Keeper.Clob.Sound.{Crosses, match_book-Crosses}
use stellax.Keeper.Clob.Greedy.{walk-greedy, pair_up, NoneCross}

abbrev bid : ℕ → ℕ → ℕ → OpenOrder
bid id market price = record {
  order_id = id;
  trader = "alice";
  market_id = market;
  is_long = true;
  price = pos price;
  size = pos 10;
  filled_size = pos 0;
  expires_at = 0;
}

abbrev ask : ℕ → ℕ → ℕ → OpenOrder
ask id market price = record {
  order_id = id;
  trader = "bob";
  market_id = market;
  is_long = false;
  price = pos price;
  size = pos 10;
  filled_size = pos 0;
  expires_at = 0;
}

abbrev full : OpenOrder
full = record (ask 9 1 50) { filled_size = pos 10 }

abbrev book : List OpenOrder
book = bid 1 1 100 ∷ ask 2 1 101 ∷ bid 3 1 103 ∷ full ∷ ask 4 1 99 ∷ bid 5 2 70 ∷ ask 6 2 70 ∷ []

abbrev market : List OpenOrder
market = bid 1 1 100 ∷ ask 2 1 101 ∷ bid 3 1 103 ∷ ask 4 1 99 ∷ []

abbrev ids : List MatchPair → List (ℕ × ℕ)
ids pairs = map (λ p. (p.buy.order_id, p.sell.order_id)) pairs

match_book-book : ids (match_book book 50) ≡ (3, 4) ∷ (5, 6) ∷ []
unfolding match_book sort
match_book-book = refl

-- the trader's own ask is passed over in favour of the earlier order
self_match :
    ids (match_book (bid 1 1 100 ∷ record (ask 2 1 90) { trader = "alice" } ∷ ask 3 1 95 ∷ []) 50)
    ≡ (1, 3) ∷ []
unfolding match_book sort
self_match = refl

abbrev log : Chain (List Invocation)
log i w = (true, i ∷ w)

tick-book : (tick log "CLOB" none book []).0 ≡ record { ok = 2; failed = 0 }
unfolding tick match_book try_each sort
tick-book = refl

match_book-Crosses_example : All (Crosses book) (match_book book 50)
match_book-Crosses_example = match_book-Crosses book 50

walk-greedy_example :
    (k : ℕ) × (walk 50 [] (bids_of market) (asks_of market)
      ≡ pair_up (take k (bids_of market)) (take k (asks_of market)))
    × (NoneCross (drop k (bids_of market)) (drop k (asks_of market)) ⊎ (50 ≤ k))
    × IsSorted bid_before (bids_of market)
    × IsSorted ask_before (asks_of market)
unfolding bids_of asks_of sort
walk-greedy_example = walk-greedy 50 market (ground arith)
