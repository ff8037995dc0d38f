-- ===== src/Indexer/Candles/Shape.antt =====
-- The shape of every candle of `toCandles`.
use stellax.Base.{
  some_eq, ℕ, zero, suc, ◌+◌, ◌-◌, ◌/◌, ◌≤◌, ◌≡◌, Bool, some, List, [], ◌∷◌, ◌++◌, leb, ◌==◌,
  ==_iff, if◌then◌else◌, length, drop, sort, reverse, find, All, All-append, All-sort, length-drop,
  Bool-cases, Option-cases, inl, inr, arith, subst, ◌⊎◌,
}
use stellax.Base.Int.{ℤ, ◌≤ℤ◌, ltb_ℤ}
use stellax.Indexer.Rows.{OraclePriceRow}
use stellax.Indexer.Candles.{
  PriceCandle, extend, add_row, time_of, group, at_time, filler, fill, earlier, last_time_of,
  fill_gaps, to_candles, all_candles,
}

-- the highest and lowest prices enclose the opening and the closing price
abbrev pub IsShaped : PriceCandle → Type 0
IsShaped c =
    (c.low ≤ℤ c.open_price) × (c.open_price ≤ℤ c.high) × (c.low ≤ℤ c.close) × (c.close ≤ℤ c.high)

lowered : (p l o : ℤ) → l ≤ℤ o → (if ltb_ℤ p l then p else l) ≤ℤ o
lowered p l o h = ground (arith, h)

lowered_self : (p l : ℤ) → (if ltb_ℤ p l then p else l) ≤ℤ p
lowered_self p l = ground arith

raised : (p u o : ℤ) → o ≤ℤ u → o ≤ℤ (if ltb_ℤ u p then p else u)
raised p u o h = ground (arith, h)

raised_self : (p u : ℤ) → p ≤ℤ (if ltb_ℤ u p then p else u)
raised_self p u = ground arith

extend-IsShaped : (row : OraclePriceRow) (c : PriceCandle) → IsShaped c → IsShaped (extend row c)
extend-IsShaped row c h = (
  lowered row.price c.low c.open_price h.0,
  raised row.price c.high c.open_price h.1,
  lowered_self row.price c.low,
  raised_self row.price c.high,
)

add_row-IsShaped :
    (time : ℕ) (row : OraclePriceRow) (cs : List PriceCandle)
    → All IsShaped cs
    → All IsShaped (add_row time row cs)
unfolding add_row
add_row-IsShaped time row [] h = ((omega arith, omega arith, omega arith, omega arith), tt)
add_row-IsShaped time row (c ∷ cs) h = elim (Bool-cases (c.time == time)) [
  | inl e ↦ rw e (extend-IsShaped row c h.0, h.1)
  | inr e ↦ rw e (h.0, add_row-IsShaped time row cs h.1)
]

group-IsShaped :
    (interval : ℕ) (rows : List OraclePriceRow) (cs : List PriceCandle)
    → All IsShaped cs
    → All IsShaped (group interval rows cs)
unfolding group
group-IsShaped interval [] cs h = h
group-IsShaped interval (row ∷ rows) cs h =
    group-IsShaped interval rows (add_row (time_of interval row) row cs)
      (add_row-IsShaped (time_of interval row) row cs h)

find-All :
    (P : PriceCandle → Type 0) (p : PriceCandle → Bool) (cs : List PriceCandle) {c : PriceCandle}
    → All P cs
    → find p cs ≡ some c
    → P c
find-All P p [] h e = cc
find-All P p (x ∷ cs) {c = c} h e = elim (Bool-cases (p x)) [
  | inl k ↦
      let same : some x ≡ some c = subst (λ b. (if b then some x else find p cs) ≡ some c) k e in
      subst P (some_eq same) h.0
  | inr k ↦ find-All P p cs h.1 (subst (λ b. (if b then some x else find p cs) ≡ some c) k e)
]

fill-IsShaped :
    (fuel interval last_time t : ℕ) (last : PriceCandle) (cs : List PriceCandle)
    → IsShaped last
    → All IsShaped cs
    → All IsShaped (fill fuel interval last_time t last cs)
unfolding fill
fill-IsShaped zero interval last_time t last cs l h = h
fill-IsShaped (suc fuel) interval last_time t last cs l h = elim (Bool-cases (leb t last_time)) [
  | inl e ↦ elim (Option-cases (find (at_time t) cs)) [
    | inl k ↦
        rw (e, k, fill)
          (fill-IsShaped fuel interval last_time (t + interval) last (cs ++ (filler t last ∷ [])) l
            (All-append IsShaped cs (filler t last ∷ []) h
              ((omega arith, omega arith, omega arith, omega arith), tt)))
    | inr (c, k) ↦
        rw (e, k, fill)
          (fill-IsShaped fuel interval last_time (t + interval) c cs
            (find-All IsShaped (at_time t) cs h k) h)
  ]
  | inr e ↦ rw (e, fill) h
]

fill_gaps-IsShaped :
    (interval : ℕ) (sorted cs : List PriceCandle)
    → All IsShaped sorted
    → All IsShaped cs
    → All IsShaped (fill_gaps interval sorted cs)
fill_gaps-IsShaped interval [] cs l h = h
fill_gaps-IsShaped interval (c ∷ []) cs l h = h
fill_gaps-IsShaped interval (c ∷ d ∷ rest) cs l h =
    let last_time = last_time_of (d ∷ rest) in
    fill-IsShaped ((last_time - c.time) / interval) interval last_time (c.time + interval) c cs l.0
      h

All-drop : (P : PriceCandle → Type 0) (n : ℕ) (cs : List PriceCandle) → All P cs → All P (drop n cs)
All-drop P zero cs h = h
All-drop P (suc n) [] h = tt
All-drop P (suc n) (c ∷ cs) h = All-drop P n cs h.1

-- In every candle that a request gets, filled ones too, the lowest and the highest price enclose the
-- opening and the closing price; and there are at most as many candles as asked for, if that is not 0.
pub to_candles-IsShaped :
    (rows_desc : List OraclePriceRow) (interval limit : ℕ)
    → All IsShaped (to_candles rows_desc interval limit)
      × ((limit ≡ 0) ⊎ (length (to_candles rows_desc interval limit) ≤ limit))
unfolding to_candles all_candles
to_candles-IsShaped rows_desc interval limit =
    let buckets = group interval (reverse rows_desc) [] in
    let grouped = group-IsShaped interval (reverse rows_desc) [] tt in
    let all = sort earlier (fill_gaps interval (sort earlier buckets) buckets) in
    let shaped = All-sort earlier IsShaped (fill_gaps interval (sort earlier buckets) buckets) (
      fill_gaps-IsShaped interval (sort earlier buckets) buckets
        (All-sort earlier IsShaped buckets grouped) grouped) in
    elim (Bool-cases (limit == 0)) [
      | inl e ↦ rw e (shaped, inl ((==_iff limit 0).0 e))
      | inr e ↦ rw e (
        All-drop IsShaped (length all - limit) all shaped,
        inr (omega (arith, length-drop (length all - limit) all)),
      )
    ]
