-- ===== src/Keeper/Sources/Tests.antt =====
-- The sources on a small store.
use Prim.Native.String.{String}
use stellax.Base.{
  ℕ, ◌≡◌, refl, Bool, true, false, none, some, [], ◌∷◌, map, filter, sort, count, All, ◌==◌,
}
use stellax.Base.Int.{ℤ, pos}
use stellax.Indexer.Rows.{Text, OrderRow, OrderStatus, status_open, status_filled, PositionRow}
use stellax.Indexer.Store.{Store, empty}
use stellax.Indexer.Queries.{list_open_orders, list_open_positions}
use stellax.Keeper.Clob.{OpenOrder, MatchPair, match_book}
use stellax.Keeper.Clob.Sound.{Crosses}
use stellax.Keeper.Liquidation.{PositionLike, Simulate, candidates}
use stellax.Keeper.Liquidation.Order.{due}
use stellax.Keeper.Sources.{other_string, get_open_orders, get_open_positions}
use stellax.Keeper.Sources.Served.{Backed, sent_order, snapshot, match_book-of_store}
use stellax.Keeper.Sources.Positions.{position_of_row, sent_position, candidates-of_store}

abbrev name : Text → String
name [] = "GA"
name (c ∷ t) = "GB"

abbrev order : ℕ → Text → Bool → ℤ → OrderStatus → OrderRow
order id trader is_long price status = record {
  order_id = id;
  trader = trader;
  market_id = 1;
  is_long = is_long;
  price = price;
  size = pos 10;
  filled_size = pos 3;
  status = status;
  placed_at = id;
  updated_at = id;
  place_tx_hash = [];
}

abbrev position : ℕ → Text → PositionRow
position id user = record {
  position_id = id;
  user = user;
  market_id = 1;
  is_long = true;
  size = pos 5;
  entry_price = pos 100;
  leverage = 2;
  opened_at = 77;
  open_tx_hash = [];
}

abbrev store : Store
store = record empty {
  orders =
      order 1 [] true (pos 100) status_open
      ∷ order 2 (b'B' ∷ []) false (pos 90) status_filled
      ∷ order 3 (b'B' ∷ []) false (pos 95) status_open
      ∷ [];
  positions = position 1 [] ∷ position 2 (b'B' ∷ []) ∷ [];
}

match_book-of_store_example :
    All
      (λ (p : MatchPair).
        Backed name store p.buy × Backed name store p.sell × Crosses (snapshot name store) p)
      (match_book (snapshot name store) 50)
match_book-of_store_example = match_book-of_store name store 50

-- the filled ask is not in the book
in_book : map (λ (o : OpenOrder). o.order_id) (snapshot name store) ≡ 1 ∷ 3 ∷ []
unfolding get_open_orders list_open_orders sort
in_book = refl

-- one price that does not parse empties the whole book
spoiled :
    get_open_orders (
      some (
        record (sent_order name (order 1 [] true (pos 100) status_open)) { price = other_string }
        ∷ sent_order name (order 3 [] false (pos 90) status_open)
        ∷ []))
    ≡ []
unfolding get_open_orders
spoiled = refl

abbrev health : Simulate
health [] = some (record { margin_ratio_bps = some (pos 90); liquidatable = true })
health (c ∷ t) = none

abbrev has_id_1 : PositionLike → Bool
has_id_1 p = p.position_id == 1

candidates-of_store_example :
    count has_id_1 (
      candidates health
        (get_open_positions (some (map sent_position (list_open_positions none store)))))
    ≡ count has_id_1 (filter (due health) (map position_of_row store.positions))
candidates-of_store_example = candidates-of_store health store has_id_1
