-- ===== src/Keeper/Sources/Holders.antt =====
-- The holders that the yield simulator gets from the indexer's own answers.
use Prim.Native.String.{String}
use stellax.Base.{
  ℕ, ◌≡◌, ◌≤◌, refl, ap, Option, some, List, [], ◌∷◌, map, min, length, filter, sort, length-take,
  length-filter, Option-cases, inl, inr, arith,
}
use stellax.Base.Int.{pos}
use stellax.Indexer.Rows.{Text, RwaHolderRow}
use stellax.Indexer.Store.{Store}
use stellax.Indexer.Params.{missing, clamp_limit}
use stellax.Indexer.Queries.{holds, updated_last, list_rwa_holders}
use stellax.Keeper.Yield.{RwaHolder}
use stellax.Keeper.Sources.{
  number, numeral, map_rows, rows_or_none, IndexerRwaHolderRow, parse_holder, is_holding,
  get_holders,
}
use stellax.Keeper.Sources.Served.{camel}

length-map {ℓ κ} :
    {A : Type ℓ} {B : Type κ} (f : A → B) (xs : List A) → length (map f xs) ≡ length xs
length-map f [] = refl
length-map f (x ∷ xs) = omega (arith, length-map f xs)

length-map_rows :
    {A B : Type 0} (f : A → Option B) (xs : List A)
    → length (rows_or_none (map_rows f xs)) ≤ length xs
unfolding map_rows
length-map_rows f [] = omega arith
length-map_rows f (x ∷ xs) = elim (Option-cases (f x)) [
  | inl e ↦ rw e (omega arith)
  | inr (y, e) ↦ elim (Option-cases (map_rows f xs)) [
    | inl k ↦ rw (e, k) (omega arith)
    | inr (ys, k) ↦
        let more = length-map_rows f xs in
        let size : length (rows_or_none (map_rows f xs)) ≡ length ys =
          ap (λ o. length (rows_or_none o)) k in
        rw (e, k) (omega (arith, more, size))
  ]
]

module _ (name : Text → String) where
  abbrev pub sent_holder : RwaHolderRow → IndexerRwaHolderRow
  sent_holder r = record {
    address = name r.address;
    balance_native = camel (numeral r.balance_native);
    cumulative_yield = camel (numeral r.cumulative_yield);
    first_seen_ts = camel (number (pos r.first_seen_ts));
  }

  -- the holders that the simulator gets: its request names no limit
  abbrev pub received : Text → ℕ → Store → List RwaHolder
  received feed max_limit s =
      get_holders (some (map sent_holder (list_rwa_holders feed (clamp_limit missing max_limit) s)))

  -- However many holders a feed has, the yield simulator never gets more than fifty of them.
  pub received-at_most :
      (feed : Text) (max_limit : ℕ) (s : Store) → length (received feed max_limit s) ≤ 50
  unfolding get_holders list_rwa_holders clamp_limit
  received-at_most feed max_limit s =
      let rows = list_rwa_holders feed (clamp_limit missing max_limit) s in
      let sent = map sent_holder rows in
      let kept = length-filter is_holding (rows_or_none (map_rows parse_holder sent)) in
      let parsed = length-map_rows parse_holder sent in
      let size = length-map sent_holder rows in
      let cut =
        length-take (min max_limit 50) (sort updated_last (filter (holds feed) s.rwa_holders)) in
      omega (arith, kept, parsed, size, cut)
