-- ===== src/Keeper/Clob/Sound.antt =====
-- Every pair of `matchBook` may be settled: two live orders of the snapshot, on opposite sides of one
-- market, of different traders, at prices that cross.
use text.Mathlib.Text.{◌==◌ as str_eq}
use text.Mathlib.TextEquality.{eq_iff}
use stellax.Base.{
  ℕ, ◌≡◌, ◌≢◌, refl, Bool, true, false, not, List, [], ◌∷◌, ◌++◌, arith, leb, ◌==◌, ==_iff, inl,
  inr, Bool-cases, length, filter, All, All-append, All-mono, All-filter_test, All-sort, Elem,
  All-Elem_self,
}
use stellax.Base.Int.{◌≤ℤ◌, leb_ℤ}
use stellax.Keeper.Clob.{
  OpenOrder, MatchPair, is_exhausted, add_to_market, group_by_market, bid_before, ask_before,
  bids_of, asks_of, walk, match_markets, match_book,
}

pub record IsLive (orders : List OpenOrder) (o : OpenOrder) : Type 0 where
  pub listed : Elem o orders
  pub unfilled : is_exhausted o ≡ false

pub record Crosses (orders : List OpenOrder) (pair : MatchPair) : Type 0 where
  pub buy_live : IsLive orders pair.buy
  pub sell_live : IsLive orders pair.sell
  pub buy_long : pair.buy.is_long ≡ true
  pub sell_short : pair.sell.is_long ≡ false
  pub one_market : pair.buy.market_id ≡ pair.sell.market_id
  pub two_traders : pair.buy.trader ≢ pair.sell.trader
  pub crossing : pair.sell.price ≤ℤ pair.buy.price

module _ (orders : List OpenOrder) where
  -- a bucket of the map holds live orders of its market
  abbrev IsBucket : ℕ × List OpenOrder → Type 0
  IsBucket (id, bucket) = All (λ o. IsLive orders o × (o.market_id ≡ id)) bucket

  add_to_market-IsBucket :
      (o : OpenOrder) (markets : List (ℕ × List OpenOrder))
      → IsLive orders o
      → All IsBucket markets
      → All IsBucket (add_to_market o markets)
  unfolding add_to_market
  add_to_market-IsBucket o [] l h = (((l, refl), tt), tt)
  add_to_market-IsBucket o ((id, bucket) ∷ markets) l h = elim (Bool-cases (id == o.market_id)) [
    | inl e ↦ rw e (
      All-append (λ x. IsLive orders x × (x.market_id ≡ id)) bucket (o ∷ []) h.0
          ((l, ground (arith, ==_iff id o.market_id)), tt),
      h.1,
    )
    | inr e ↦ rw e (h.0, add_to_market-IsBucket o markets l h.1)
  ]

  group_by_market-IsBucket :
      (rest : List OpenOrder) (markets : List (ℕ × List OpenOrder))
      → All (λ o. Elem o orders) rest
      → All IsBucket markets
      → All IsBucket (group_by_market rest markets)
  unfolding group_by_market
  group_by_market-IsBucket [] markets l h = h
  group_by_market-IsBucket (o ∷ rest) markets l h = elim (Bool-cases (is_exhausted o)) [
    | inl e ↦ rw e (group_by_market-IsBucket rest markets l.1 h)
    | inr e ↦ rw e (
        group_by_market-IsBucket rest (add_to_market o markets) l.1
          (add_to_market-IsBucket o markets (record { listed = l.0; unfilled = e }) h))
  ]

  -- what the walk needs of an order on each side
  abbrev OnSide : Bool → ℕ → OpenOrder → Type 0
  OnSide side id o = IsLive orders o × (o.market_id ≡ id) × (o.is_long ≡ side)

  pair-Crosses :
      (id : ℕ) (bid ask : OpenOrder)
      → OnSide true id bid
      → OnSide false id ask
      → str_eq bid.trader ask.trader ≡ false
      → leb_ℤ ask.price bid.price ≡ true
      → Crosses orders (record { buy = bid; sell = ask })
  pair-Crosses id bid ask b a other meet = record {
    buy_live = b.0;
    sell_live = a.0;
    buy_long = b.2;
    sell_short = a.2;
    one_market = cc (b.1, a.1);
    two_traders = λ same. ground (arith, eq_iff bid.trader ask.trader);
    crossing = ground arith;
  }

  walk-Crosses :
      (m : ℕ) (id : ℕ) (pairs : List MatchPair) (bids asks : List OpenOrder)
      → All (OnSide true id) bids
      → All (OnSide false id) asks
      → All (Crosses orders) pairs
      → All (Crosses orders) (walk m pairs bids asks)
  unfolding walk
  walk-Crosses m id pairs [] asks b a h = h
  walk-Crosses m id pairs (bid ∷ bids) [] b a h = h
  walk-Crosses m id pairs (bid ∷ bids) (ask ∷ asks) b a h =
      let one : List MatchPair = record { buy = bid; sell = ask } ∷ [] in
      ground (
        arith,
        walk-Crosses m id pairs bids (ask ∷ asks) b.1 a h,
        walk-Crosses m id pairs (bid ∷ bids) asks b a.1 h,
        walk-Crosses m id (pairs ++ one) bids asks b.1 a.1,
        All-append (Crosses orders) pairs one h,
        pair-Crosses id bid ask b.0 a.0,
      )

  bids-OnSide :
      (id : ℕ) (market : List OpenOrder)
      → IsBucket (id, market)
      → All (OnSide true id) (bids_of market)
  unfolding bids_of
  bids-OnSide id market h =
      let long : OpenOrder → Bool = λ o. o.is_long in
      All-sort bid_before (OnSide true id) (filter long market) (
        All-mono (λ o. (IsLive orders o × (o.market_id ≡ id)) × (long o ≡ true)) (OnSide true id)
          (filter long market) (λ o k. (k.0.0, k.0.1, k.1))
          (All-filter_test (λ o. IsLive orders o × (o.market_id ≡ id)) long market h))

  asks-OnSide :
      (id : ℕ) (market : List OpenOrder)
      → IsBucket (id, market)
      → All (OnSide false id) (asks_of market)
  unfolding asks_of
  asks-OnSide id market h =
      let short : OpenOrder → Bool = λ o. not o.is_long in
      All-sort ask_before (OnSide false id) (filter short market) (
        All-mono (λ o. (IsLive orders o × (o.market_id ≡ id)) × (short o ≡ true)) (OnSide false id)
          (filter short market) (λ o k. (k.0.0, k.0.1, ground arith))
          (All-filter_test (λ o. IsLive orders o × (o.market_id ≡ id)) short market h))

  match_markets-Crosses :
      (m : ℕ) (pairs : List MatchPair) (markets : List (ℕ × List OpenOrder))
      → All IsBucket markets
      → All (Crosses orders) pairs
      → All (Crosses orders) (match_markets m pairs markets)
  unfolding match_markets
  match_markets-Crosses m pairs [] b h = h
  match_markets-Crosses m pairs ((id, market) ∷ markets) b h =
      let next = walk m pairs (bids_of market) (asks_of market) in
      let sound : All (Crosses orders) next =
        walk-Crosses m id pairs (bids_of market) (asks_of market) (bids-OnSide id market b.0)
          (asks-OnSide id market b.0) h in
      elim (Bool-cases (leb m (length next))) [
        | inl e ↦ rw e sound
        | inr e ↦ rw e (match_markets-Crosses m next markets b.1 sound)
      ]

-- Every pair joins a live bid and a live ask of the snapshot, in one market, of two traders, with the
-- ask's price at most the bid's.
pub match_book-Crosses :
    (orders : List OpenOrder) (max_pairs : ℕ) → All (Crosses orders) (match_book orders max_pairs)
unfolding match_book
match_book-Crosses orders m =
    match_markets-Crosses orders m [] (group_by_market orders [])
      (group_by_market-IsBucket orders orders [] (All-Elem_self orders) tt) tt
