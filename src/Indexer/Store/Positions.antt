-- ===== src/Indexer/Store/Positions.antt =====
-- The table of positions as a map from ids to rows.
use stellax.Base.{
  ℕ, ◌≡◌, refl, Bool, true, false, not, Option, none, some, List, [], ◌∷◌, ◌++◌, ◌==◌,
  if◌then◌else◌, filter, find, count, count-append, arith,
}
use stellax.Indexer.Rows.{PositionRow}
use stellax.Indexer.Store.{Store, insert_position, delete_position}

abbrev pub has_id : ℕ → PositionRow → Bool
has_id id r = r.position_id == id

abbrev pub find_position : ℕ → Store → Option PositionRow
find_position id s = find (has_id id) s.positions

-- how many rows an id has
abbrev pub rows_of : ℕ → Store → ℕ
rows_of id s = count (has_id id) s.positions

find-without :
    (id k : ℕ) (rows : List PositionRow)
    → find (has_id id) (filter (λ r. not (has_id k r)) rows)
      ≡ (if k == id then none else find (has_id id) rows)
find-without id k [] = ground arith
find-without id k (r ∷ rs) = ground (arith, find-without id k rs)

find-snoc :
    (id : ℕ) (rows : List PositionRow) (row : PositionRow)
    → find (has_id id) (rows ++ (row ∷ [])) ≡ elim (find (has_id id) rows) [
      | none ↦ if has_id id row then some row else none
      | some r ↦ some r
    ]
find-snoc id [] row = refl
find-snoc id (r ∷ rs) row = ground (arith, find-snoc id rs row)

find-replaced :
    (id : ℕ) (row : PositionRow) (rows : List PositionRow)
    → find (has_id id) (filter (λ r. not (has_id row.position_id r)) rows ++ (row ∷ []))
      ≡ (if has_id id row then some row else find (has_id id) rows)
find-replaced id row rows =
    rw (find-snoc id (filter (λ r. not (has_id row.position_id r)) rows) row)
      (rw (find-without id row.position_id rows) (merged (has_id id row) (find (has_id id) rows)))
  where
    merged :
        (b : Bool) (o : Option PositionRow)
        → (elim (if b then none else o) [ none ↦ if b then some row else none | some r ↦ some r ])
          ≡ (if b then some row else o)
    merged true o = refl
    merged false none = refl
    merged false (some r) = refl

pub find-insert_position :
    (id : ℕ) (row : PositionRow) (s : Store)
    → find_position id (insert_position row s)
      ≡ (if row.position_id == id then some row else find_position id s)
unfolding insert_position
find-insert_position id row s = find-replaced id row s.positions

pub find-delete_position :
    (id k : ℕ) (s : Store)
    → find_position id (delete_position k s) ≡ (if k == id then none else find_position id s)
unfolding delete_position
find-delete_position id k s = find-without id k s.positions

count-without :
    (id k : ℕ) (rows : List PositionRow)
    → count (has_id id) (filter (λ r. not (has_id k r)) rows)
      ≡ (if k == id then 0 else count (has_id id) rows)
count-without id k [] = ground arith
count-without id k (r ∷ rs) = ground (arith, count-without id k rs)

pub rows_of-delete_position :
    (id k : ℕ) (s : Store)
    → rows_of id (delete_position k s) ≡ (if k == id then 0 else rows_of id s)
unfolding delete_position
rows_of-delete_position id k s = count-without id k s.positions

pub rows_of-insert_position :
    (id : ℕ) (row : PositionRow) (s : Store)
    → rows_of id (insert_position row s) ≡ (if row.position_id == id then 1 else rows_of id s)
unfolding insert_position
rows_of-insert_position id row s = ground (
  arith,
  count-append (has_id id) (filter (λ r. not (has_id row.position_id r)) s.positions) (row ∷ []),
  count-without id row.position_id s.positions,
)
