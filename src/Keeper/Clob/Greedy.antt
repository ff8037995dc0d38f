-- ===== src/Keeper/Clob/Greedy.antt =====
-- What the walk of one market leaves unmatched: where no trader stands on both sides, the best bids
-- are paired with the best asks in order, and the walk stops only where nothing crosses any more.
use text.Mathlib.Text.{◌==◌ as str_eq}
use stellax.Base.{
  ◌⊎◌, inl, inr, ℕ, suc, ◌+◌, ◌≤◌, ◌<◌, ◌≡◌, true, false, List, [], ◌∷◌, ◌++◌, arith, ltb,
  append_assoc, append-nil, inl, inr, Bool-cases, length, length-append, take, drop, filter, not,
  sym, All, All-mono, IsSorted, sort-IsSorted,
}
use stellax.Base.Int.{◌≤ℤ◌, ◌<ℤ◌, leb_ℤ}
use stellax.Keeper.Clob.{OpenOrder, MatchPair, bid_before, ask_before, bids_of, asks_of, walk}

-- the first with the first, the second with the second, …
abbrev pub pair_up : List OpenOrder → List OpenOrder → List MatchPair
pair_up [] asks = []
pair_up (bid ∷ bids) [] = []
pair_up (bid ∷ bids) (ask ∷ asks) = record { buy = bid; sell = ask } ∷ pair_up bids asks

abbrev pub NoneCross : List OpenOrder → List OpenOrder → Type 0
NoneCross bids asks = All (λ b. All (λ a. b.price <ℤ a.price) asks) bids

abbrev pub NoSharedTrader : List OpenOrder → List OpenOrder → Type 0
NoSharedTrader bids asks = All (λ b. All (λ a. str_eq b.trader a.trader ≡ false) asks) bids

bid_before_total : (a b : OpenOrder) → bid_before a b ≡ false → bid_before b a ≡ true
bid_before_total a b h = ground arith

bid_before_trans :
    (a b c : OpenOrder) → bid_before a b ≡ true → bid_before b c ≡ true → bid_before a c ≡ true
bid_before_trans a b c h k = ground arith

ask_before_total : (a b : OpenOrder) → ask_before a b ≡ false → ask_before b a ≡ true
ask_before_total a b h = ground arith

ask_before_trans :
    (a b c : OpenOrder) → ask_before a b ≡ true → ask_before b c ≡ true → ask_before a c ≡ true
ask_before_trans a b c h k = ground arith

bid_before-price : (a b : OpenOrder) → bid_before a b ≡ true → b.price ≤ℤ a.price
bid_before-price a b h = ground arith

ask_before-price : (a b : OpenOrder) → ask_before a b ≡ true → a.price ≤ℤ b.price
ask_before-price a b h = ground arith

-- If the best two do not cross, nothing behind them does.
stop-NoneCross :
    (bid ask : OpenOrder) (bids asks : List OpenOrder)
    → IsSorted bid_before (bid ∷ bids)
    → IsSorted ask_before (ask ∷ asks)
    → leb_ℤ ask.price bid.price ≡ false
    → NoneCross (bid ∷ bids) (ask ∷ asks)
stop-NoneCross bid ask bids asks sb sa apart = (
  against bid (omega (arith)),
  All-mono (λ b. bid_before bid b ≡ true) (λ b. All (λ a. b.price <ℤ a.price) (ask ∷ asks)) bids
      (λ b h. against b (bid_before-price bid b h)) sb.0,
)
  where
    against : (b : OpenOrder) → b.price ≤ℤ bid.price → All (λ a. b.price <ℤ a.price) (ask ∷ asks)
    against b h = (
      ground arith,
      All-mono (λ a. ask_before ask a ≡ true) (λ a. b.price <ℤ a.price) asks
          (λ a k. ground (arith, ask_before-price ask a k)) sa.0,
    )

record Greedy (m : ℕ) (pairs : List MatchPair) (bids asks : List OpenOrder) (k : ℕ) : Type 0 where
  within_bids : k ≤ length bids
  within_asks : k ≤ length asks
  paired : walk m pairs bids asks ≡ pairs ++ pair_up (take k bids) (take k asks)
  stopped : length pairs + k < m → NoneCross (drop k bids) (drop k asks)

All-nil_right : (bids : List OpenOrder) → NoneCross bids []
All-nil_right [] = tt
All-nil_right (b ∷ bids) = (tt, All-nil_right bids)

All-tail_right :
    (bids : List OpenOrder) (a : OpenOrder) (asks : List OpenOrder)
    → NoSharedTrader bids (a ∷ asks)
    → NoSharedTrader bids asks
All-tail_right [] a asks h = tt
All-tail_right (b ∷ bids) a asks h = (h.0.1, All-tail_right bids a asks h.1)

walk-Greedy :
    (m : ℕ) (pairs : List MatchPair) (bids asks : List OpenOrder)
    → IsSorted bid_before bids
    → IsSorted ask_before asks
    → NoSharedTrader bids asks
    → (k : ℕ) × Greedy m pairs bids asks k
unfolding walk
walk-Greedy m pairs [] asks sb sa no_self = (
  0,
  record {
    within_bids = omega arith;
    within_asks = omega arith;
    paired = sym (append-nil pairs);
    stopped = λ _. tt;
  },
)
walk-Greedy m pairs (bid ∷ bids) [] sb sa no_self = (
  0,
  record {
    within_bids = omega arith;
    within_asks = omega arith;
    paired = sym (append-nil pairs);
    stopped = λ _. All-nil_right (bid ∷ bids);
  },
)
walk-Greedy m pairs (bid ∷ bids) (ask ∷ asks) sb sa no_self =
    elim (Bool-cases (ltb (length pairs) m)) [
      | inr full ↦ (
        0,
        record {
          within_bids = omega arith;
          within_asks = omega arith;
          paired = ground (arith, append-nil pairs);
          stopped = λ h. absurd (ground arith);
        },
      )
      | inl room ↦ elim (Bool-cases (leb_ℤ ask.price bid.price)) [
        | inr apart ↦ (
          0,
          record {
            within_bids = omega arith;
            within_asks = omega arith;
            paired = ground (arith, append-nil pairs, no_self.0.0);
            stopped = λ _. stop-NoneCross bid ask bids asks sb sa apart;
          },
        )
        | inl meet ↦
            let one : List MatchPair = record { buy = bid; sell = ask } ∷ [] in
            let (k, g) =
              walk-Greedy m (pairs ++ one) bids asks sb.1 sa.1
                (All-tail_right bids ask asks no_self.1) in
            (
              suc k,
              record {
                within_bids = omega (arith, g.within_bids);
                within_asks = omega (arith, g.within_asks);
                paired = ground (
                  arith,
                  g.paired,
                  no_self.0.0,
                  append_assoc pairs one (pair_up (take k bids) (take k asks)),
                );
                stopped = λ h. g.stopped (omega (arith, length-append pairs one));
              },
            )
      ]
    ]

-- In a market where no trader stands on both sides, the walk from an empty list of pairs joins the
-- `k` best bids to the `k` best asks in price order, for some `k`; and if it stopped short of the
-- limit, none of the bids left over crosses any of the asks left over.
pub walk-greedy :
    (max_pairs : ℕ) (market : List OpenOrder)
    → NoSharedTrader (bids_of market) (asks_of market)
    → (k : ℕ) × (walk max_pairs [] (bids_of market) (asks_of market)
        ≡ pair_up (take k (bids_of market)) (take k (asks_of market)))
      × (NoneCross (drop k (bids_of market)) (drop k (asks_of market)) ⊎ (max_pairs ≤ k))
      × IsSorted bid_before (bids_of market)
      × IsSorted ask_before (asks_of market)
unfolding bids_of asks_of
walk-greedy m market no_self =
    let sb =
      sort-IsSorted bid_before bid_before_total bid_before_trans (filter (λ o. o.is_long) market) in
    let sa =
      sort-IsSorted ask_before ask_before_total ask_before_trans
        (filter (λ o. not o.is_long) market) in
    let (k, g) = walk-Greedy m [] (bids_of market) (asks_of market) sb sa no_self in
    let ended : NoneCross (drop k (bids_of market)) (drop k (asks_of market)) ⊎ (m ≤ k) =
      elim (Bool-cases (ltb k m)) [
        | inl room ↦ inl (g.stopped (ground arith))
        | inr full ↦ inr (ground arith)
      ] in
    (k, g.paired, ended, sb, sa)
