-- ===== src/Indexer/Queries/Listed.antt =====
-- What the queries list.
use stellax.Base.{
  ℕ, ◌≡◌, refl, sym, ap, subst, ◌∙◌, Bool, true, ◌&&◌, Option, none, some, List, [], ◌∷◌, ltb,
  filter, sort, reverse, count, count-sort, count-reverse, IsSorted, sort-IsSorted, All, All-append,
  All-sort, All-filter_test, All-Elem_self, Elem, arith,
}
use stellax.Indexer.Rows.{Text, OrderRow, OraclePriceRow}
use stellax.Indexer.Store.{Store}
use stellax.Indexer.Queries.{
  listed_open, placed_first, list_open_orders, of_feed, written_last, list_oracle_prices,
  get_latest_oracle_price,
}

-- The listed orders are exactly the rows with status "open", of the market where one is given, each as
-- often as the table holds it (whatever property they are counted by), the earliest placed first.
pub list_open_orders-lists :
    (market : Option ℕ) (s : Store) (p : OrderRow → Bool)
    → (count p (list_open_orders market s) ≡ count p (filter (listed_open market) s.orders))
      × IsSorted placed_first (list_open_orders market s)
unfolding list_open_orders
list_open_orders-lists market s p = (
  count-sort placed_first p (filter (listed_open market) s.orders),
  sort-IsSorted placed_first (λ a b h. ground arith) (λ a b c h k. ground arith)
      (filter (listed_open market) s.orders),
)

count-filter_and :
    (p q : OraclePriceRow → Bool) (xs : List OraclePriceRow)
    → count p (filter q xs) ≡ count (λ x. q x && p x) xs
count-filter_and p q [] = refl
count-filter_and p q (x ∷ xs) = ground (arith, count-filter_and p q xs)

All-reverse :
    (P : OraclePriceRow → Type 0) (xs : List OraclePriceRow) → All P xs → All P (reverse xs)
All-reverse P [] h = tt
All-reverse P (x ∷ xs) h = All-append P (reverse xs) (x ∷ []) (All-reverse P xs h.1) (h.0, tt)

later : OraclePriceRow → OraclePriceRow → Bool
later r x = ltb r.write_timestamp x.write_timestamp

none_later :
    (r : OraclePriceRow) (rs : List OraclePriceRow)
    → All (λ y. written_last r y ≡ true) rs
    → count (later r) (r ∷ rs) ≡ 0
unfolding later
none_later r [] h = ground arith
none_later r (x ∷ xs) h = ground (arith, none_later r xs h.1)

abbrev sorted_feed : Text → Store → List OraclePriceRow
sorted_feed feed s = sort written_last (filter (of_feed feed) (reverse s.oracle_prices))

latest-sorted :
    (feed : Text) (s : Store) (rows : List OraclePriceRow) {r : OraclePriceRow}
    → sorted_feed feed s ≡ rows
    → get_latest_oracle_price feed s ≡ some r
    → (rs : List OraclePriceRow) × (sorted_feed feed s ≡ r ∷ rs)
unfolding get_latest_oracle_price list_oracle_prices
latest-sorted feed s [] {r = r} e h =
    absurd (clash (sym (rw (e, get_latest_oracle_price) refl) ∙ h))
  where
    clash : {A : Type 0} {a : A} → none ≡ some a → ⊥
    clash p = cc
latest-sorted feed s (x ∷ xs) {r = r} e h =
    let first : some x ≡ some r = sym (rw (e, get_latest_oracle_price) refl) ∙ h in
    let same : x ≡ r = cc in (xs, e ∙ ap (λ y. y ∷ xs) same)

-- The latest price of a feed is a row of the table with that feed, and no row of the feed was written
-- later.
pub get_latest_oracle_price-newest :
    (feed : Text) (s : Store) {r : OraclePriceRow}
    → get_latest_oracle_price feed s ≡ some r
    → Elem r s.oracle_prices
      × (of_feed feed r ≡ true)
      × (count
            (λ (x : OraclePriceRow). ltb r.write_timestamp x.write_timestamp)
            (filter (of_feed feed) s.oracle_prices)
          ≡ 0)
unfolding later
get_latest_oracle_price-newest feed s {r = r} h =
    let (rs, e) = latest-sorted feed s (sorted_feed feed s) refl h in
    let rows = s.oracle_prices in
    let sorted =
      sort-IsSorted written_last (λ a b h. ground arith) (λ a b c h k. ground arith)
        (filter (of_feed feed) (reverse rows)) in
    let headed : IsSorted written_last (r ∷ rs) = subst (IsSorted written_last) e sorted in
    let known =
      All-sort written_last (λ x. Elem x rows × (of_feed feed x ≡ true))
        (filter (of_feed feed) (reverse rows))
        (All-filter_test (λ x. Elem x rows) (of_feed feed) (reverse rows)
          (All-reverse (λ x. Elem x rows) rows (All-Elem_self rows))) in
    let member : All (λ x. Elem x rows × (of_feed feed x ≡ true)) (r ∷ rs) =
      subst (All (λ x. Elem x rows × (of_feed feed x ≡ true))) e known in
    (
      member.0.0,
      member.0.1,
      count-filter_and (later r) (of_feed feed) rows
          ∙ sym (count-reverse (λ x. of_feed feed x && later r x) rows)
          ∙ sym (count-filter_and (later r) (of_feed feed) (reverse rows))
          ∙ sym (count-sort written_last (later r) (filter (of_feed feed) (reverse rows)))
          ∙ ap (count (later r)) e
          ∙ none_later r rs headed.0,
    )
