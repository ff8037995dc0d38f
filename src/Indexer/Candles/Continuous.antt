-- ===== src/Indexer/Candles/Continuous.antt =====
-- The fill of `toCandles` leaves no gap and no time twice.
use native.Mathlib.Nat.{le-div_iff_mul-le}
use stellax.Base.{
  ℕ, zero, suc, ◌+◌, ◌-◌, ◌*◌, ◌/◌, ◌<◌, ◌≤◌, ◌≡◌, refl, sym, ap, ◌∙◌, subst, true, none, some,
  List, [], ◌∷◌, ◌++◌, leb, ◌==◌, ==_iff, if◌then◌else◌, find, sort, reverse, count, count-append,
  count-sort, max, Bool-cases, Option-cases, inl, inr, arith,
}
use stellax.Indexer.Rows.{OraclePriceRow}
use stellax.Indexer.Candles.{
  PriceCandle, add_row, time_of, group, at_time, filler, fill, earlier, last_time_of, fill_gaps,
  all_candles,
}

-- how many candles a time has
abbrev pub candles_at : ℕ → List PriceCandle → ℕ
candles_at t cs = count (at_time t) cs

add_row-single :
    (t time : ℕ) (row : OraclePriceRow) (cs : List PriceCandle)
    → candles_at t (add_row time row cs)
      ≡ (if time == t then max 1 (candles_at t cs) else candles_at t cs)
unfolding add_row
add_row-single t time row [] = ground arith
add_row-single t time row (c ∷ cs) =
    ground (arith, add_row-single t time row cs, ==_iff c.time time, ==_iff c.time t, ==_iff time t)

group-single :
    (t interval : ℕ) (rows : List OraclePriceRow) (cs : List PriceCandle)
    → candles_at t cs ≤ 1
    → candles_at t (group interval rows cs) ≤ 1
unfolding group
group-single t interval [] cs h = h
group-single t interval (row ∷ rows) cs h =
    group-single t interval rows (add_row (time_of interval row) row cs)
      (ground (arith, h, add_row-single t (time_of interval row) row cs))

find-none : (t : ℕ) (cs : List PriceCandle) → find (at_time t) cs ≡ none → candles_at t cs ≡ 0
find-none t [] h = refl
find-none t (c ∷ cs) h = ground (arith, find-none t cs)

find-some :
    (t : ℕ) (cs : List PriceCandle) {c : PriceCandle}
    → find (at_time t) cs ≡ some c
    → 0 < candles_at t cs
find-some t [] h = cc
find-some t (c ∷ cs) {c = x} h = ground (arith, h, find-some t cs {c = x})

appended :
    (t u : ℕ) (last : PriceCandle) (cs : List PriceCandle)
    → candles_at u (cs ++ (filler t last ∷ [])) ≡ candles_at u cs + (if t == u then 1 else 0)
appended t u last cs = omega (arith, count-append (at_time u) cs (filler t last ∷ []))

appended-single :
    (t u : ℕ) (last : PriceCandle) (cs : List PriceCandle)
    → find (at_time t) cs ≡ none
    → candles_at u cs ≤ 1
    → candles_at u (cs ++ (filler t last ∷ [])) ≤ 1
appended-single t u last cs k h =
    ground (arith, h, appended t u last cs, find-none t cs k, ==_iff t u)

-- the fill takes no candle away, and none gets a second one of its time
fill-keeps :
    (u fuel interval last_time t : ℕ) (last : PriceCandle) (cs : List PriceCandle)
    → candles_at u cs ≤ 1
    → (candles_at u cs ≤ candles_at u (fill fuel interval last_time t last cs))
      × (candles_at u (fill fuel interval last_time t last cs) ≤ 1)
unfolding fill
fill-keeps u zero interval last_time t last cs h = (omega arith, h)
fill-keeps u (suc fuel) interval last_time t last cs h = elim (Bool-cases (leb t last_time)) [
  | inl e ↦ elim (Option-cases (find (at_time t) cs)) [
    | inl k ↦
        let more = appended t u last cs in
        let rest =
          fill-keeps u fuel interval last_time (t + interval) last (cs ++ (filler t last ∷ []))
            (appended-single t u last cs k h) in
        rw (e, k, fill) (omega (arith, rest.0, more), rest.1)
    | inr (c, k) ↦ rw (e, k, fill) (fill-keeps u fuel interval last_time (t + interval) c cs h)
  ]
  | inr e ↦ rw (e, fill) (omega arith, h)
]

-- a time that the loop reaches has a candle
fill-reaches :
    (u j fuel interval last_time t : ℕ) (last : PriceCandle) (cs : List PriceCandle)
    → candles_at u cs ≤ 1
    → u ≡ t + j * interval
    → u ≤ last_time
    → j < fuel
    → 0 < candles_at u (fill fuel interval last_time t last cs)
unfolding fill
fill-reaches u j zero interval last_time t last cs h e l f = absurd (omega (arith, f))
fill-reaches u zero (suc fuel) interval last_time t last cs h e l f =
    let in_range : leb t last_time ≡ true = ground (arith, e, l) in
    let same : t ≡ u = omega (arith, e) in
    elim (Option-cases (find (at_time t) cs)) [
      | inl k ↦
          let more = appended t u last cs in
          let kept =
            fill-keeps u fuel interval last_time (t + interval) last (cs ++ (filler t last ∷ []))
              (appended-single t u last cs k h) in
          let here : (t == u) ≡ true = (==_iff t u).1 same in
          rw (in_range, k, fill) (ground (arith, kept.0, more, here))
      | inr (c, k) ↦
          let kept = fill-keeps u fuel interval last_time (t + interval) c cs h in
          let here : 0 < candles_at u cs =
            subst (λ x. 0 < candles_at x cs) same (find-some t cs k) in
          rw (in_range, k, fill) (omega (arith, kept.0, here))
    ]
fill-reaches u (suc j) (suc fuel) interval last_time t last cs h e l f =
    let in_range : leb t last_time ≡ true = ground (arith, e, l) in
    let next : u ≡ t + interval + j * interval = omega (arith, e) in
    elim (Option-cases (find (at_time t) cs)) [
      | inl k ↦
          rw (in_range, k, fill)
            (fill-reaches u j fuel interval last_time (t + interval) last
              (cs ++ (filler t last ∷ [])) (appended-single t u last cs k h) next l
              (omega (arith, f)))
      | inr (c, k) ↦
          rw (in_range, k, fill)
            (fill-reaches u j fuel interval last_time (t + interval) c cs h next l
              (omega (arith, f)))
    ]

-- the times from the first bucket to the last
fill_gaps-single :
    (i interval : ℕ) (c d : PriceCandle) (rest cs : List PriceCandle)
    → 0 < interval
    → ((t : ℕ) → candles_at t cs ≤ 1)
    → 0 < candles_at c.time cs
    → c.time + i * interval ≤ last_time_of (d ∷ rest)
    → candles_at (c.time + i * interval) (fill_gaps interval (c ∷ d ∷ rest) cs) ≡ 1
fill_gaps-single zero interval c d rest cs pos single first l =
    let last_time = last_time_of (d ∷ rest) in
    let fuel = (last_time - c.time) / interval in
    let same : c.time + 0 * interval ≡ c.time = omega arith in
    let kept = fill-keeps c.time fuel interval last_time (c.time + interval) c cs (single c.time) in
    rw same (omega (arith, kept.0, kept.1, first))
fill_gaps-single (suc i) interval c d rest cs pos single first l =
    let last_time = last_time_of (d ∷ rest) in
    let fuel = (last_time - c.time) / interval in
    let u = c.time + suc i * interval in
    let steps : suc i ≤ fuel = (le-div_iff_mul-le pos).1 (omega (arith, l)) in
    let kept = fill-keeps u fuel interval last_time (c.time + interval) c cs (single u) in
    let there =
      fill-reaches u i fuel interval last_time (c.time + interval) c cs (single u) (omega arith) l
        (omega (arith, steps)) in
    omega (arith, kept.1, there)

-- The candles form one line without a gap: from the earliest bucket that has rows to the latest, each
-- interval has exactly one candle.
pub all_candles-continuous :
    (i interval : ℕ) (rows_desc : List OraclePriceRow) (c d : PriceCandle) (rest : List PriceCandle)
    → 0 < interval
    → sort earlier (group interval (reverse rows_desc) []) ≡ c ∷ d ∷ rest
    → c.time + i * interval ≤ last_time_of (d ∷ rest)
    → candles_at (c.time + i * interval) (all_candles rows_desc interval) ≡ 1
unfolding all_candles
all_candles-continuous i interval rows_desc c d rest pos e l =
    let buckets = group interval (reverse rows_desc) [] in
    let u = c.time + i * interval in
    let self : (c.time == c.time) ≡ true = ground arith in
    let first : 0 < candles_at c.time buckets =
      subst (λ n. 0 < n)
        (ap (candles_at c.time) (sym e) ∙ count-sort earlier (at_time c.time) buckets)
        (ground (arith, self)) in
    count-sort earlier (at_time u) (fill_gaps interval (sort earlier buckets) buckets)
    ∙ ap (λ sorted. candles_at u (fill_gaps interval sorted buckets)) e
    ∙ fill_gaps-single i interval c d rest buckets pos
        (λ t. group-single t interval (reverse rows_desc) [] (omega arith)) first l
