-- ===== src/Indexer/Candles/Buckets.antt =====
-- What each bucket of `toCandles` holds.
use stellax.Base.{
  ℕ, ◌≡◌, refl, ap, ◌∙◌, Bool, true, false, Option, none, some, List, [], ◌∷◌, ◌==◌, ==_iff, find,
  filter, Bool-cases, inl, inr, arith,
}
use stellax.Indexer.Rows.{OraclePriceRow}
use stellax.Indexer.Candles.{PriceCandle, first_candle, extend, add_row, time_of, group, at_time}

-- The candle of a bucket, from its rows in the order of time.
abbrev pub candle_with : List OraclePriceRow → PriceCandle → PriceCandle
candle_with [] c = c
candle_with (row ∷ rows) c = candle_with rows (extend row c)

abbrev pub merged : ℕ → List OraclePriceRow → Option PriceCandle → Option PriceCandle
merged t rows (some c) = some (candle_with rows c)
merged t [] none = none
merged t (row ∷ rows) none = some (candle_with rows (first_candle t row))

==_self : (n : ℕ) → (n == n) ≡ true
==_self n = ground arith

==_through : (a b c : ℕ) → (a == b) ≡ true → (a == c) ≡ (b == c)
==_through a b c h = ap (λ x. x == c) ((==_iff a b).0 h)

find-add_row :
    (t : ℕ) (row : OraclePriceRow) (cs : List PriceCandle)
    → find (at_time t) (add_row t row cs) ≡ merged t (row ∷ []) (find (at_time t) cs)
unfolding add_row
find-add_row t row [] = rw (==_self t) refl
find-add_row t row (c ∷ cs) = elim (Bool-cases (c.time == t)) [
  | inl e ↦ rw e (rw e refl)
  | inr e ↦ rw e (rw e (find-add_row t row cs))
]

find-add_row_other :
    (t time : ℕ) (row : OraclePriceRow) (cs : List PriceCandle)
    → (time == t) ≡ false
    → find (at_time t) (add_row time row cs) ≡ find (at_time t) cs
unfolding add_row
find-add_row_other t time row [] h = rw h refl
find-add_row_other t time row (c ∷ cs) h = elim (Bool-cases (c.time == time)) [
  | inl e ↦ let off : (c.time == t) ≡ false = ==_through c.time time t e ∙ h in rw e (rw off refl)
  | inr e ↦ elim (Bool-cases (c.time == t)) [
    | inl k ↦ rw e (rw k refl)
    | inr k ↦ rw e (rw k (find-add_row_other t time row cs h))
  ]
]

merged_none : (t : ℕ) (o : Option PriceCandle) → o ≡ merged t [] o
merged_none t none = refl
merged_none t (some c) = refl

merged-merged :
    (t : ℕ) (row : OraclePriceRow) (rows : List OraclePriceRow) (o : Option PriceCandle)
    → merged t rows (merged t (row ∷ []) o) ≡ merged t (row ∷ rows) o
merged-merged t row rows none = refl
merged-merged t row rows (some c) = refl

module _ (interval : ℕ) where
  abbrev pub in_bucket : ℕ → OraclePriceRow → Bool
  in_bucket t row = time_of interval row == t

  group-from :
      (t : ℕ) (rows : List OraclePriceRow) (cs : List PriceCandle)
      → find (at_time t) (group interval rows cs)
        ≡ merged t (filter (in_bucket t) rows) (find (at_time t) cs)
  unfolding group
  group-from t [] cs = merged_none t (find (at_time t) cs)
  group-from t (row ∷ rows) cs = elim (Bool-cases (time_of interval row == t)) [
    | inl e ↦
        group-from t rows (add_row (time_of interval row) row cs)
        ∙ ap (merged t (filter (in_bucket t) rows)) (
            ap (λ time. find (at_time t) (add_row time row cs))
              ((==_iff (time_of interval row) t).0 e)
            ∙ find-add_row t row cs)
        ∙ merged-merged t row (filter (in_bucket t) rows) (find (at_time t) cs)
        ∙ rw e refl
    | inr e ↦
        group-from t rows (add_row (time_of interval row) row cs)
        ∙ ap (merged t (filter (in_bucket t) rows))
            (find-add_row_other t (time_of interval row) row cs e)
        ∙ rw e refl
  ]

  -- The loop over the rows makes of each bucket the candle of its rows in their order, and none where
  -- there is no row.
  pub group-buckets :
      (t : ℕ) (rows : List OraclePriceRow)
      → find (at_time t) (group interval rows []) ≡ merged t (filter (in_bucket t) rows) none
  group-buckets t rows = group-from t rows []
