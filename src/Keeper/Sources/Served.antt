-- ===== src/Keeper/Sources/Served.antt =====
-- What the workers get from the indexer's own answers: the rows of the tables (`camelizeOrder`,
-- `camelizeRwaHolder` of packages/indexer/src/db.ts, sent as JSON) through the sources. A text becomes a
-- string of JSON by a function `name` of which nothing is assumed.
use Prim.Native.String.{String}
use stellax.Base.{
  ℕ, ◌≡◌, refl, sym, ap, ◌∙◌, subst, Bool, true, ◌&&◌, none, some, List, [], ◌∷◌, map, ltb,
  if◌then◌else◌, filter, All, All-mono, All-elem, All-sort, All-filter_test, All-Elem_self, Elem,
  Bool-cases, inl, inr, arith,
}
use stellax.Base.Int.{pos, ltb_ℤ}
use stellax.Indexer.Rows.{Text, OrderRow, is_open}
use stellax.Indexer.Store.{Store}
use stellax.Indexer.Queries.{listed_open, placed_first, list_open_orders}
use stellax.Keeper.Clob.{OpenOrder, MatchPair, match_book}
use stellax.Keeper.Clob.Sound.{Crosses, match_book-Crosses}
use stellax.Keeper.Sources.{
  Field, missing, number, numeral, Named, known, may_be_open, IndexerOrderRow, ParsedOrder,
  parse_order, map_rows, rows_or_none, live_orders, get_open_orders,
}

-- a property that is sent under its first name
abbrev pub camel : Field → Named
camel f = record { camel = f; snake = missing }

module _ (name : Text → String) where
  abbrev pub sent_order : OrderRow → IndexerOrderRow
  sent_order r = record {
    order_id = camel (numeral (pos r.order_id));
    trader = name r.trader;
    market_id = camel (number (pos r.market_id));
    is_long = camel (number (pos (if r.is_long then 1 else 0)));
    price = numeral r.price;
    size = numeral r.size;
    filled_size = camel (numeral r.filled_size);
    placed_at = camel (number (pos r.placed_at));
    updated_at = camel (number (pos r.updated_at));
    status = known r.status;
  }

  -- the order of the book that a row stands for
  abbrev pub order_of_row : OrderRow → OpenOrder
  order_of_row r = record {
    order_id = r.order_id;
    trader = name r.trader;
    market_id = r.market_id;
    is_long = r.is_long;
    price = r.price;
    size = r.size;
    filled_size = r.filled_size;
    expires_at = r.updated_at;
  }

  parsed_row : OrderRow → ParsedOrder
  parsed_row r = record {
    order_id = pos r.order_id;
    trader = name r.trader;
    market_id = r.market_id;
    is_long = r.is_long;
    price = r.price;
    size = r.size;
    filled_size = r.filled_size;
    expires_at = r.updated_at;
  }

  abbrev pub is_unfilled : OrderRow → Bool
  is_unfilled r = ltb 0 r.order_id && ltb 0 r.market_id && ltb_ℤ r.filled_size r.size

  parse-sent_order : (r : OrderRow) → parse_order (sent_order r) ≡ some (parsed_row r)
  unfolding parse_order parsed_row
  parse-sent_order r = elim (Bool-cases r.is_long) [ inl e ↦ rw e refl | inr e ↦ rw e refl ]

  map_rows-sent :
      (rows : List OrderRow)
      → map_rows parse_order (map sent_order rows) ≡ some (map parsed_row rows)
  unfolding map_rows
  map_rows-sent [] = refl
  map_rows-sent (r ∷ rows) = rw (parse-sent_order r, map_rows-sent rows) refl

  live-parsed :
      (rows : List OrderRow)
      → live_orders (map parsed_row rows) ≡ map order_of_row (filter is_unfilled rows)
  unfolding parsed_row
  live-parsed [] = refl
  live-parsed (r ∷ rows) = elim (Bool-cases (is_unfilled r)) [
    | inl e ↦ rw (live-parsed rows) (ground arith)
    | inr e ↦ rw (live-parsed rows) (ground arith)
  ]

  filter-sent :
      (rows : List OrderRow)
      → All (λ (r : OrderRow). is_open r.status ≡ true) rows
      → filter (λ (r : IndexerOrderRow). may_be_open r.status) (map sent_order rows)
        ≡ map sent_order rows
  filter-sent [] h = refl
  filter-sent (r ∷ rows) h = rw h.0 (ap (sent_order r ∷◌) (filter-sent rows h.1))

  -- What the matcher reads from the indexer is the book of the unfilled open rows, in their order.
  pub get_open_orders-sent :
      (rows : List OrderRow)
      → All (λ (r : OrderRow). is_open r.status ≡ true) rows
      → get_open_orders (some (map sent_order rows)) ≡ map order_of_row (filter is_unfilled rows)
  unfolding get_open_orders
  get_open_orders-sent rows h =
      ap (λ rs. live_orders (rows_or_none (map_rows parse_order rs))) (filter-sent rows h)
      ∙ ap (λ o. live_orders (rows_or_none o)) (map_rows-sent rows)
      ∙ live-parsed rows

  -- the open rows of the store
  pub open_rows-stored :
      (s : Store)
      → All
          (λ (r : OrderRow). Elem r s.orders × (is_open r.status ≡ true))
          (list_open_orders none s)
  unfolding list_open_orders
  open_rows-stored s =
      All-sort placed_first (λ (r : OrderRow). Elem r s.orders × (is_open r.status ≡ true))
        (filter (listed_open none) s.orders)
        (All-filter_test (λ r. Elem r s.orders) (listed_open none) s.orders
          (All-Elem_self s.orders))

  -- an order of the book and the row that it stands for
  pub record Backed (s : Store) (o : OpenOrder) : Type 0 where
    pub row : OrderRow
    pub stored : Elem row s.orders
    pub listed_open : is_open row.status ≡ true
    pub unfilled : is_unfilled row ≡ true
    pub same : o ≡ order_of_row row

  all-Backed :
      (s : Store) (rows : List OrderRow)
      → All (λ (r : OrderRow). Elem r s.orders × (is_open r.status ≡ true)) rows
      → All (Backed s) (map order_of_row (filter is_unfilled rows))
  all-Backed s [] h = tt
  all-Backed s (r ∷ rows) h = elim (Bool-cases (is_unfilled r)) [
    | inl e ↦ rw e (
      record { row = r; stored = h.0.0; listed_open = h.0.1; unfilled = e; same = refl },
      all-Backed s rows h.1,
    )
    | inr e ↦ rw e (all-Backed s rows h.1)
  ]

  -- the snapshot of the book that the matcher works on
  abbrev pub snapshot : Store → List OpenOrder
  snapshot s = get_open_orders (some (map sent_order (list_open_orders none s)))

  snapshot-Backed : (s : Store) → All (Backed s) (snapshot s)
  snapshot-Backed s =
      let rows = list_open_orders none s in
      let stored = open_rows-stored s in
      let opens =
        All-mono (λ (r : OrderRow). Elem r s.orders × (is_open r.status ≡ true))
          (λ (r : OrderRow). is_open r.status ≡ true) rows (λ r k. k.1) stored in
      subst (All (Backed s)) (sym (get_open_orders-sent rows opens)) (all-Backed s rows stored)

  -- Each pair that the matcher makes of the indexer's answer stands for two rows of the store that are
  -- open and not filled, and it may be settled: opposite sides of one market, two traders, crossing
  -- prices.
  pub match_book-of_store :
      (s : Store) (max_pairs : ℕ)
      → All
          (λ (p : MatchPair). Backed s p.buy × Backed s p.sell × Crosses (snapshot s) p)
          (match_book (snapshot s) max_pairs)
  match_book-of_store s m =
      All-mono (Crosses (snapshot s))
        (λ (p : MatchPair). Backed s p.buy × Backed s p.sell × Crosses (snapshot s) p)
        (match_book (snapshot s) m)
        (λ p c. (
          All-elem (Backed s) p.buy (snapshot s) (snapshot-Backed s) c.buy_live.listed,
          All-elem (Backed s) p.sell (snapshot s) (snapshot-Backed s) c.sell_live.listed,
          c,
        ))
        (match_book-Crosses (snapshot s) m)
