-- ===== src/Indexer/Store.antt =====
-- The tables and the statements that write to them (packages/indexer/src/db.ts). A table is the list of
-- its rows in the order of their rowids.
pub mod Positions
pub mod Orders
pub mod Holders
pub mod HolderRows
mod Tests
use stellax.Base.{
  ℕ, zero, suc, ◌+◌, ◌≡◌, Bool, true, false, not, ◌&&◌, ◌||◌, Option, none, some, List, [], ◌∷◌,
  ◌++◌, map, leb, ltb, ◌==◌, if◌then◌else◌, length, filter, find, take, sort,
}
use stellax.Base.Int.{ℤ, pos, ◌+ℤ◌, neg, ltb_ℤ, leb_ℤ}
use stellax.Indexer.Rows.{
  Text, same_text, to_upper_case, PositionRow, TradeRow, LiquidationRow, DepositRow, OrderRow,
  OrderStatus, status_open, status_filled, status_cancelled, is_open, OraclePriceRow, same_source,
  RwaHolderRow,
}

-- `cursor` has one key, the watcher's.
pub record Store : Type 0 where
  pub positions : List PositionRow
  pub trades : List TradeRow
  pub liquidations : List LiquidationRow
  pub deposits : List DepositRow
  pub orders : List OrderRow
  pub oracle_prices : List OraclePriceRow
  pub rwa_holders : List RwaHolderRow
  pub cursor : Option ℕ

abbrev pub empty : Store
empty = record {
  positions = [];
  trades = [];
  liquidations = [];
  deposits = [];
  orders = [];
  oracle_prices = [];
  rwa_holders = [];
  cursor = none;
}

-- INSERT OR REPLACE: the row with the same key goes, the new one comes last.
unfoldable pub insert_position : PositionRow → Store → Store
insert_position row s = record s {
  positions =
      filter (λ (r : PositionRow). not (r.position_id == row.position_id)) s.positions
      ++ (row ∷ []);
}

unfoldable pub delete_position : ℕ → Store → Store
delete_position id s = record s {
  positions = filter (λ (r : PositionRow). not (r.position_id == id)) s.positions;
}

abbrev pub insert_trade : TradeRow → Store → Store
insert_trade row s = record s { trades = s.trades ++ (row ∷ []) }

abbrev pub insert_liquidation : LiquidationRow → Store → Store
insert_liquidation row s = record s { liquidations = s.liquidations ++ (row ∷ []) }

abbrev pub insert_deposit : DepositRow → Store → Store
insert_deposit row s = record s { deposits = s.deposits ++ (row ∷ []) }

-- UNIQUE(feed, package_timestamp, source)
abbrev pub same_price_key : OraclePriceRow → OraclePriceRow → Bool
same_price_key a b =
    same_text a.feed b.feed
    && (a.package_timestamp == b.package_timestamp)
    && same_source a.source b.source

-- INSERT OR IGNORE
unfoldable pub insert_oracle_price : OraclePriceRow → Store → Store
insert_oracle_price row s =
    let upper : OraclePriceRow = record row { feed = to_upper_case row.feed } in
    elim (find (same_price_key upper) s.oracle_prices) [
      | none ↦ record s { oracle_prices = s.oracle_prices ++ (upper ∷ []) }
      | some old ↦ s
    ]

-- UPDATE … WHERE order_id = ?
unfoldable pub update_orders : ℕ → (OrderRow → OrderRow) → List OrderRow → List OrderRow
update_orders id f [] = []
update_orders id f (r ∷ rs) = (if r.order_id == id then f r else r) ∷ update_orders id f rs

abbrev pub find_order : ℕ → List OrderRow → Option OrderRow
find_order id rows = find (λ (r : OrderRow). r.order_id == id) rows

-- INSERT … ON CONFLICT(order_id) DO UPDATE SET status, filled_size, updated_at
unfoldable pub insert_order : OrderRow → Store → Store
unfolding update_orders
insert_order row s = elim (find_order row.order_id s.orders) [
  | none ↦ record s { orders = s.orders ++ (row ∷ []) }
  | some old ↦ record s {
    orders =
        update_orders row.order_id
          (λ (r : OrderRow). record r {
            status = row.status;
            filled_size = row.filled_size;
            updated_at = row.updated_at;
          })
          s.orders;
  }
]

unfoldable pub cancel_order : ℕ → ℕ → Store → Store
unfolding update_orders
cancel_order id ts s = record s {
  orders =
      update_orders id (λ (r : OrderRow). record r { status = status_cancelled; updated_at = ts })
        s.orders;
}

unfoldable pub fill_order : ℕ → ℤ → ℕ → Store → Store
unfolding update_orders
fill_order id fill_size ts s = elim (find_order id s.orders) [
  | none ↦ s
  | some row ↦
      let next = row.filled_size +ℤ fill_size in
      let status = if leb_ℤ row.size next then status_filled else row.status in
      record s {
        orders =
            update_orders id
              (λ (r : OrderRow). record r { filled_size = next; status = status; updated_at = ts })
              s.orders;
      }
]

-- /^G[A-Z2-7]{55}$/
abbrev pub all_base32 : Text → Bool
all_base32 [] = true
all_base32 (c ∷ s) = ((leb b'A' c && leb c b'Z') || (leb b'2' c && leb c b'7')) && all_base32 s

abbrev pub is_address : Text → Bool
is_address [] = false
is_address (c ∷ s) = (c == b'G') && (length s == 55) && all_base32 s

abbrev pub is_holder : Text → Text → RwaHolderRow → Bool
is_holder feed address r = same_text r.feed feed && same_text r.address address

abbrev pub clamp : ℤ → ℤ
clamp n = if ltb_ℤ (pos 0) n then n else pos 0

-- The row that `adjustRwaHolder` writes.
abbrev pub adjusted :
    Text → Text → (balance_delta yield_delta : ℤ) → ℕ → Option RwaHolderRow → RwaHolderRow
adjusted feed address bd yd ts none = record {
  feed = feed;
  address = address;
  balance_native = clamp (pos 0 +ℤ bd);
  cumulative_yield = clamp (pos 0 +ℤ yd);
  first_seen_ts = ts;
  updated_at = ts;
}
adjusted feed address bd yd ts (some r) = record {
  feed = feed;
  address = address;
  balance_native = clamp (r.balance_native +ℤ bd);
  cumulative_yield = clamp (r.cumulative_yield +ℤ yd);
  first_seen_ts = r.first_seen_ts;
  updated_at = ts;
}

-- INSERT … ON CONFLICT(feed, address) DO UPDATE; `first_seen_ts` stays.
unfoldable pub upsert_rwa_holder : RwaHolderRow → List RwaHolderRow → List RwaHolderRow
upsert_rwa_holder row [] = row ∷ []
upsert_rwa_holder row (r ∷ rs) =
    if is_holder row.feed row.address r
    then record r {
      balance_native = row.balance_native;
      cumulative_yield = row.cumulative_yield;
      updated_at = row.updated_at;
    }
      ∷ rs
    else r ∷ upsert_rwa_holder row rs

unfoldable pub adjust_rwa_holder : Text → Text → (balance_delta yield_delta : ℤ) → ℕ → Store → Store
adjust_rwa_holder feed_raw address bd yd ts s =
    let feed = to_upper_case feed_raw in
    let row = find (is_holder feed address) s.rwa_holders in
    if is_address address
    then record s {
      rwa_holders = upsert_rwa_holder (adjusted feed address bd yd ts row) s.rwa_holders;
    }
    else s

unfoldable pub apply_rwa_mint : Text → Text → ℤ → ℕ → Store → Store
unfolding adjust_rwa_holder
apply_rwa_mint feed to amount ts s = adjust_rwa_holder feed to amount (pos 0) ts s

unfoldable pub apply_rwa_burn : Text → Text → ℤ → ℕ → Store → Store
unfolding adjust_rwa_holder
apply_rwa_burn feed source amount ts s = adjust_rwa_holder feed source (neg amount) (pos 0) ts s

unfoldable pub apply_rwa_transfer : Text → Text → Text → ℤ → ℕ → Store → Store
unfolding adjust_rwa_holder
apply_rwa_transfer feed source to amount ts s =
    adjust_rwa_holder feed to amount (pos 0) ts
      (adjust_rwa_holder feed source (neg amount) (pos 0) ts s)

unfoldable pub apply_rwa_yield : Text → Text → ℤ → ℕ → Store → Store
unfolding adjust_rwa_holder
apply_rwa_yield feed holder amount ts s = adjust_rwa_holder feed holder amount amount ts s

abbrev pub set_cursor : ℕ → Store → Store
set_cursor v s = record s { cursor = some v }
