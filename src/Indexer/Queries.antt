-- ===== src/Indexer/Queries.antt =====
-- The queries of the store (packages/indexer/src/db.ts). ORDER BY is a stable sort of the rows in the
-- order of their rowids; LIMIT takes from the front.
pub mod Listed
mod Tests
use stellax.Base.{
  ℕ, ◌≡◌, Bool, true, false, not, ◌&&◌, Option, none, some, List, [], ◌∷◌, ltb, leb, ◌==◌,
  if◌then◌else◌, filter, take, sort, reverse,
}
use stellax.Base.Int.{ℤ, pos, negsuc}
use stellax.Indexer.Rows.{
  Text, same_text, to_upper_case, PositionRow, TradeRow, LiquidationRow, OrderRow, OrderStatus,
  status_open, status_filled, status_cancelled, is_open, OraclePriceRow, RwaHolderRow,
}
use stellax.Indexer.Store.{Store}

abbrev pub same_status : OrderStatus → OrderStatus → Bool
same_status status_open status_open = true
same_status status_open status_filled = false
same_status status_open status_cancelled = false
same_status status_filled status_open = false
same_status status_filled status_filled = true
same_status status_filled status_cancelled = false
same_status status_cancelled status_open = false
same_status status_cancelled status_filled = false
same_status status_cancelled status_cancelled = true

-- the WHERE clause on an optional parameter
abbrev pub matches {ℓ} : {A : Type ℓ} → (A → Bool) → Option A → Bool
matches p none = true
matches p (some a) = p a

abbrev pub listed_open : Option ℕ → OrderRow → Bool
listed_open market o = matches (λ m. o.market_id == m) market && is_open o.status

abbrev pub placed_first : OrderRow → OrderRow → Bool
placed_first a b = leb a.placed_at b.placed_at

unfoldable pub list_open_orders : Option ℕ → Store → List OrderRow
list_open_orders market s = sort placed_first (filter (listed_open market) s.orders)

abbrev pub listed_for : Text → Option OrderStatus → OrderRow → Bool
listed_for trader status o =
    same_text o.trader trader && matches (λ st. same_status o.status st) status

abbrev pub placed_last : OrderRow → OrderRow → Bool
placed_last a b = leb b.placed_at a.placed_at

unfoldable pub list_user_orders : Text → Option OrderStatus → Store → List OrderRow
list_user_orders trader status s = sort placed_last (filter (listed_for trader status) s.orders)

abbrev is_zero : ℤ → Bool
is_zero (pos n) = n == 0
is_zero (negsuc n) = false

abbrev pub holds : Text → RwaHolderRow → Bool
holds feed r = same_text r.feed (to_upper_case feed) && not (is_zero r.balance_native)

abbrev pub updated_last : RwaHolderRow → RwaHolderRow → Bool
updated_last a b = leb b.updated_at a.updated_at

unfoldable pub list_rwa_holders : Text → ℕ → Store → List RwaHolderRow
list_rwa_holders feed limit s = take limit (sort updated_last (filter (holds feed) s.rwa_holders))

unfoldable pub list_open_positions : Option Text → Store → List PositionRow
list_open_positions user s =
    sort (λ (a b : PositionRow). leb b.opened_at a.opened_at)
      (filter (λ (p : PositionRow). matches (λ u. same_text p.user u) user) s.positions)

unfoldable pub list_trades : Text → ℕ → Store → List TradeRow
list_trades user limit s = take limit (
    sort (λ (a b : TradeRow). leb b.ts a.ts)
      (filter (λ (t : TradeRow). same_text t.user user) s.trades))

unfoldable pub list_liquidations : Text → ℕ → Store → List LiquidationRow
list_liquidations user limit s = take limit (
    sort (λ (a b : LiquidationRow). leb b.ts a.ts)
      (filter (λ (t : LiquidationRow). same_text t.user user) s.liquidations))

-- ORDER BY write_timestamp DESC, id DESC: the newest row first among those of one time
abbrev pub of_feed : Text → OraclePriceRow → Bool
of_feed feed r = same_text r.feed (to_upper_case feed)

abbrev pub written_last : OraclePriceRow → OraclePriceRow → Bool
written_last a b = leb b.write_timestamp a.write_timestamp

unfoldable pub list_oracle_prices : Text → ℕ → Store → List OraclePriceRow
list_oracle_prices feed limit s =
    take limit (sort written_last (filter (of_feed feed) (reverse s.oracle_prices)))

unfoldable pub get_latest_oracle_price : Text → Store → Option OraclePriceRow
unfolding list_oracle_prices
get_latest_oracle_price feed s = elim (list_oracle_prices feed 1 s) [ [] ↦ none | r ∷ rs ↦ some r ]
