-- ===== src/Indexer/Store/Orders.antt =====
-- The table of orders as a map from ids to rows, and the fills of an order.
use stellax.Base.{
  ℕ, ◌+◌, ◌≤◌, ◌≡◌, refl, ap, subst, ◌∙◌, Bool, true, leb, Option, none, some, List, [], ◌∷◌, ◌++◌,
  ◌==◌, ==_iff, if◌then◌else◌, count, count-append, arith, Bool-cases, Option-cases, inl, inr,
}
use stellax.Base.Int.{ℤ, pos, ◌+ℤ◌, leb_ℤ}
use stellax.Indexer.Rows.{OrderRow, OrderStatus, status_open, status_filled, status_cancelled}
use stellax.Indexer.Store.{Store, find_order, update_orders, insert_order, cancel_order, fill_order}

abbrev pub has_order : ℕ → OrderRow → Bool
has_order id r = r.order_id == id

abbrev pub order_rows : ℕ → Store → ℕ
order_rows id s = count (has_order id) s.orders

abbrev map_option {ℓ} : {A : Type ℓ} → (A → A) → Option A → Option A
map_option f none = none
map_option f (some a) = some (f a)

module _ (k : ℕ) (f : OrderRow → OrderRow)
    (keeps : (r : OrderRow) → (f r).order_id ≡ r.order_id) where
  find-update_orders :
      (id : ℕ) (rows : List OrderRow)
      → find_order id (update_orders k f rows)
        ≡ (if k == id then map_option f (find_order id rows) else find_order id rows)
  unfolding update_orders
  find-update_orders id [] = ground arith
  find-update_orders id (r ∷ rs) = ground (arith, keeps r, find-update_orders id rs)

  count-update_orders :
      (id : ℕ) (rows : List OrderRow)
      → count (has_order id) (update_orders k f rows) ≡ count (has_order id) rows
  unfolding update_orders
  count-update_orders id [] = refl
  count-update_orders id (r ∷ rs) = ground (arith, keeps r, count-update_orders id rs)

find_order-snoc :
    (id : ℕ) (rows : List OrderRow) (row : OrderRow)
    → find_order id rows ≡ none
    → find_order id (rows ++ (row ∷ [])) ≡ (if row.order_id == id then some row else none)
find_order-snoc id [] row h = refl
find_order-snoc id (r ∷ rs) row h = ground (arith, find_order-snoc id rs row)

count-none :
    (id : ℕ) (rows : List OrderRow) → find_order id rows ≡ none → count (has_order id) rows ≡ 0
count-none id [] h = refl
count-none id (r ∷ rs) h = ground (arith, count-none id rs)

-- what the three statements do to the row of one order
abbrev pub filled : ℤ → ℕ → OrderRow → OrderRow
filled q ts r =
    let next = r.filled_size +ℤ q in
    record r {
      filled_size = next;
      status = if leb_ℤ r.size next then status_filled else r.status;
      updated_at = ts;
    }

pub find_order-fill :
    (id : ℕ) (q : ℤ) (ts : ℕ) (s : Store)
    → find_order id (fill_order id q ts s).orders
      ≡ map_option (filled q ts) (find_order id s.orders)
unfolding fill_order
find_order-fill id q ts s = elim (Option-cases (find_order id s.orders)) [
  | inl e ↦ rw (e, fill_order) (rw e refl)
  | inr (row, e) ↦
      let next = row.filled_size +ℤ q in
      let status : OrderStatus = if leb_ℤ row.size next then status_filled else row.status in
      let step =
        find-update_orders id
          (λ (r : OrderRow). record r { filled_size = next; status = status; updated_at = ts })
          (λ r. refl) id s.orders in
      let same : (id == id) ≡ true = ground arith in rw (e, fill_order) (step ∙ rw (same, e) refl)
]

pub order_rows-fill :
    (id k : ℕ) (q : ℤ) (ts : ℕ) (s : Store) → order_rows id (fill_order k q ts s) ≡ order_rows id s
unfolding fill_order
order_rows-fill id k q ts s = elim (Option-cases (find_order k s.orders)) [
  | inl e ↦ rw (e, fill_order) refl
  | inr (row, e) ↦
      let next = row.filled_size +ℤ q in
      let status : OrderStatus = if leb_ℤ row.size next then status_filled else row.status in
      rw (e, fill_order)
        (count-update_orders k
          (λ (r : OrderRow). record r { filled_size = next; status = status; updated_at = ts })
          (λ r. refl) id s.orders)
]

pub order_rows-cancel :
    (id k ts : ℕ) (s : Store) → order_rows id (cancel_order k ts s) ≡ order_rows id s
unfolding cancel_order
order_rows-cancel id k ts s =
    count-update_orders k (λ r. record r { status = status_cancelled; updated_at = ts }) (λ r. refl)
      id s.orders

pub order_rows-insert :
    (id : ℕ) (row : OrderRow) (s : Store)
    → order_rows id s ≤ 1
    → order_rows id (insert_order row s) ≤ 1
unfolding insert_order
order_rows-insert id row s h = elim (Option-cases (find_order row.order_id s.orders)) [
  | inl e ↦
      rw (e, insert_order)
        (elim (Bool-cases (row.order_id == id)) [
          | inl same ↦
              let equal : row.order_id ≡ id = ground (arith, ==_iff row.order_id id) in
              let no_row = count-none row.order_id s.orders e in
              let none_here : order_rows id s ≡ 0 = subst (λ k. order_rows k s ≡ 0) equal no_row in
              grind (arith, count-append (has_order id) s.orders (row ∷ []), none_here)
          | inr other ↦ ground (arith, count-append (has_order id) s.orders (row ∷ []))
        ])
  | inr (old, e) ↦
      rw (e, insert_order)
        (rw
          (count-update_orders row.order_id
            (λ (r : OrderRow). record r {
              status = row.status;
              filled_size = row.filled_size;
              updated_at = row.updated_at;
            })
            (λ r. refl) id s.orders)
          h)
]

-- the fills of one order as its buy side, one after the other
unfoldable pub fill_all : ℕ → List (ℕ × ℕ) → Store → Store
fill_all id [] s = s
fill_all id ((q, ts) ∷ qs) s = fill_all id qs (fill_order id (pos q) ts s)

abbrev pub total : List (ℕ × ℕ) → ℕ
total [] = 0
total ((q, ts) ∷ qs) = q + total qs

-- the status that a row with this much filled has, unless it is cancelled
abbrev pub status_at : (size amount : ℕ) → OrderStatus
status_at size amount = if leb size amount then status_filled else status_open

add_naturals : (a b : ℕ) → pos a +ℤ pos b ≡ pos (a + b)
unfolding ◌+ℤ◌
add_naturals a b = ground arith

-- Fills add up: an order of the table that is not cancelled has after any sequence of fills exactly its
-- filled size plus their sum, and it is "filled" from the moment its size is reached and "open" before.
pub fill_all-accumulates :
    (id size before : ℕ) (qs : List (ℕ × ℕ)) (s : Store) (row : OrderRow)
    → find_order id s.orders ≡ some row
    → row.size ≡ pos size
    → row.filled_size ≡ pos before
    → row.status ≡ status_at size before
    → (after : OrderRow) × (find_order id (fill_all id qs s).orders ≡ some after)
      × (after.filled_size ≡ pos (before + total qs))
      × (after.status ≡ status_at size (before + total qs))
unfolding fill_all
fill_all-accumulates id size before [] s row found sized amount state =
    let none_added : before + 0 ≡ before = omega arith in
    (row, found, rw none_added amount, rw none_added state)
fill_all-accumulates id size before ((q, ts) ∷ qs) s row found sized amount state =
    let next : row.filled_size +ℤ pos q ≡ pos (before + q) = rw amount (add_naturals before q) in
    let step = find_order-fill id (pos q) ts s ∙ ap (map_option (filled (pos q) ts)) found in
    let sum : before + (q + total qs) ≡ before + q + total qs = omega arith in
    rw sum (
      fill_all-accumulates id size (before + q) qs (fill_order id (pos q) ts s)
        (filled (pos q) ts row) step sized next (rw next (rw sized (rw state (ground arith)))))
