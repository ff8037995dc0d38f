-- ===== src/Indexer/Queries/Tests.antt =====
-- The queries on a table with two orders and two prices.
use stellax.Base.{ℕ, ◌≡◌, refl, true, some, [], ◌∷◌, sort}
use stellax.Base.Int.{ℤ, pos}
use stellax.Indexer.Rows.{
  same_text, OrderRow, OrderStatus, status_open, status_filled, OraclePriceRow, admin,
}
use stellax.Indexer.Store.{Store, empty}
use stellax.Indexer.Queries.{list_open_orders, get_latest_oracle_price, list_oracle_prices}

abbrev order : ℕ → ℕ → OrderStatus → OrderRow
order id placed status = record {
  order_id = id;
  trader = [];
  market_id = 1;
  is_long = true;
  price = pos 100;
  size = pos 10;
  filled_size = pos 0;
  status = status;
  placed_at = placed;
  updated_at = placed;
  place_tx_hash = [];
}

abbrev price : ℤ → ℕ → OraclePriceRow
price p ts = record {
  feed = b'X' ∷ [];
  price = p;
  package_timestamp = ts;
  write_timestamp = ts;
  source = admin;
  tx_hash = [];
}

abbrev store : Store
store = record empty {
  orders = order 1 60 status_open ∷ order 2 50 status_open ∷ order 3 40 status_filled ∷ [];
  oracle_prices = price (pos 7) 5 ∷ price (pos 8) 9 ∷ price (pos 9) 9 ∷ [];
}

lists : list_open_orders (some 1) store ≡ order 2 50 status_open ∷ order 1 60 status_open ∷ []
unfolding list_open_orders sort
lists = refl

newest : get_latest_oracle_price (b'x' ∷ []) store ≡ some (price (pos 9) 9)
unfolding get_latest_oracle_price list_oracle_prices sort same_text
newest = refl
