-- ===== src/Indexer/Store/HolderRows.antt =====
-- The rows of the holders: one for each, none negative.
use stellax.Base.{
  ℕ, ◌≤◌, ◌≡◌, refl, sym, subst, false, ◌&&◌, List, [], ◌∷◌, find, count, arith, Bool-cases, inl,
  inr, All,
}
use stellax.Base.Int.{ℤ, pos, ◌+ℤ◌, ◌≤ℤ◌}
use stellax.Indexer.Rows.{Text, same_text, same_text_eq, to_upper_case, RwaHolderRow}
use stellax.Indexer.Store.{
  Store, is_holder, is_address, clamp, adjusted, upsert_rwa_holder, adjust_rwa_holder,
}
use stellax.Indexer.Store.Holders.{balance_in, yield_in, adjusted_key}

abbrev NotNegative : RwaHolderRow → Type 0
NotNegative r = (pos 0 ≤ℤ r.balance_native) × (pos 0 ≤ℤ r.cumulative_yield)

-- No holder has two rows, and no balance or yield is negative.
abbrev pub IsValidHolders : List RwaHolderRow → Type 0
IsValidHolders rows =
    ((feed address : Text) → count (is_holder feed address) rows ≤ 1) × All NotNegative rows

count-miss :
    (feed address : Text) (row : RwaHolderRow) (rows : List RwaHolderRow)
    → (same_text row.feed feed && same_text row.address address) ≡ false
    → count (is_holder feed address) (upsert_rwa_holder row rows)
      ≡ count (is_holder feed address) rows
unfolding upsert_rwa_holder
count-miss feed address row [] h = rw h refl
count-miss feed address row (r ∷ rs) h = elim (Bool-cases (is_holder row.feed row.address r)) [
  | inl e ↦ rw (e, upsert_rwa_holder) refl
  | inr e ↦ rw (e, upsert_rwa_holder) (ground (arith, count-miss feed address row rs h))
]

count-hit :
    (row : RwaHolderRow) (rows : List RwaHolderRow)
    → count (is_holder row.feed row.address) rows ≤ 1
    → count (is_holder row.feed row.address) (upsert_rwa_holder row rows) ≤ 1
unfolding upsert_rwa_holder
count-hit row [] h = ground arith
count-hit row (r ∷ rs) h = elim (Bool-cases (is_holder row.feed row.address r)) [
  | inl e ↦ rw (e, upsert_rwa_holder) h
  | inr e ↦ rw (e, upsert_rwa_holder) (rw e (omega (arith, count-hit row rs (ground arith))))
]

count-upsert :
    (feed address : Text) (row : RwaHolderRow) (rows : List RwaHolderRow)
    → count (is_holder feed address) rows ≤ 1
    → count (is_holder feed address) (upsert_rwa_holder row rows) ≤ 1
count-upsert feed address row rows h =
    elim (Bool-cases (same_text row.feed feed && same_text row.address address)) [
      | inr e ↦ rw (count-miss feed address row rows e) h
      | inl e ↦
          let kf : row.feed ≡ feed = same_text_eq row.feed feed (ground arith) in
          let ka : row.address ≡ address = same_text_eq row.address address (ground arith) in
          subst (λ f. count (is_holder f address) (upsert_rwa_holder row rows) ≤ 1) kf
            (subst (λ a. count (is_holder row.feed a) (upsert_rwa_holder row rows) ≤ 1) ka
              (count-hit row rows (
                subst (λ f. count (is_holder f row.address) rows ≤ 1) (sym kf)
                  (subst (λ a. count (is_holder feed a) rows ≤ 1) (sym ka) h))))
    ]

All-upsert :
    (row : RwaHolderRow) (rows : List RwaHolderRow)
    → NotNegative row
    → All NotNegative rows
    → All NotNegative (upsert_rwa_holder row rows)
unfolding upsert_rwa_holder
All-upsert row [] p h = (p, tt)
All-upsert row (r ∷ rs) p h = elim (Bool-cases (is_holder row.feed row.address r)) [
  | inl e ↦ rw (e, upsert_rwa_holder) (p, h.1)
  | inr e ↦ rw (e, upsert_rwa_holder) (h.0, All-upsert row rs p h.1)
]

clamp_pos : (n : ℤ) → pos 0 ≤ℤ clamp n
clamp_pos n = ground arith

pub adjust-IsValidHolders :
    (feed address : Text) (bd yd : ℤ) (ts : ℕ) (s : Store)
    → IsValidHolders s.rwa_holders
    → IsValidHolders (adjust_rwa_holder feed address bd yd ts s).rwa_holders
unfolding adjust_rwa_holder
adjust-IsValidHolders feed address bd yd ts s h = elim (Bool-cases (is_address address)) [
  | inr e ↦ rw (e, adjust_rwa_holder) h
  | inl e ↦
      let u = to_upper_case feed in
      let o = find (is_holder u address) s.rwa_holders in
      let (kf, ka, kb, ky) = adjusted_key u address bd yd ts o in
      let row : RwaHolderRow = adjusted u address bd yd ts o in
      let not_negative : NotNegative row = (
        subst (λ b. pos 0 ≤ℤ b) (sym kb) (clamp_pos (balance_in o +ℤ bd)),
        subst (λ b. pos 0 ≤ℤ b) (sym ky) (clamp_pos (yield_in o +ℤ yd)),
      ) in
      rw (e, adjust_rwa_holder)
        (
          λ f a. count-upsert f a row s.rwa_holders (h.0 f a),
          All-upsert row s.rwa_holders not_negative h.1,
        )
]
