-- ===== src/Indexer/Watcher/Replay.antt =====
-- What the tables hold after a sequence of events.
use stellax.Base.{
  ℕ, ◌≡◌, refl, sym, ap, ◌∙◌, Option, none, some, List, [], ◌∷◌, ◌++◌, ◌==◌, if◌then◌else◌, find,
  append_assoc, append-nil,
}
use stellax.Indexer.Rows.{PositionRow, TradeRow}
use stellax.Indexer.Store.{
  Store, insert_position, delete_position, insert_oracle_price, insert_order, cancel_order,
}
use stellax.Indexer.Store.Positions.{
  has_id, find_position, find-insert_position, find-delete_position,
}
use stellax.Indexer.Watcher.{
  DecodedEvent, position_open, position_close, position_modify, liquidation, deposit, order_place,
  order_cancel, order_fill, oracle_price, rwa_holder, trade_of_open, persist,
}
use stellax.Indexer.Watcher.Frames.{SameFrame, frame_order, frame_price, frame_holder, frame_fills}

-- `persist` for each event in turn
unfoldable pub replay : List DecodedEvent → Store → Store
replay [] s = s
replay (ev ∷ evs) s = replay evs (persist ev s)

-- The specification of the table of positions: the life of one id.
abbrev pub after_event : ℕ → DecodedEvent → Option PositionRow → Option PositionRow
after_event id (position_open row) o = if row.position_id == id then some row else o
after_event id (position_close row) o = if row.position_id == id then none else o
after_event id (position_modify row) o = o
after_event id (liquidation row) o = if row.position_id == id then none else o
after_event id (deposit row) o = o
after_event id (order_place row) o = o
after_event id (order_cancel order_id ts) o = o
after_event id (order_fill buy_id sell_id fill_size ts) o = o
after_event id (oracle_price row) o = o
after_event id (rwa_holder ev) o = o

abbrev pub after_events : ℕ → List DecodedEvent → Option PositionRow → Option PositionRow
after_events id [] o = o
after_events id (ev ∷ evs) o = after_events id evs (after_event id ev o)

-- The trades that the events add.
abbrev pub trades_of : List DecodedEvent → List TradeRow
trades_of [] = []
trades_of (position_open row ∷ evs) = trade_of_open row ∷ trades_of evs
trades_of (position_close row ∷ evs) = row ∷ trades_of evs
trades_of (position_modify row ∷ evs) = row ∷ trades_of evs
trades_of (liquidation row ∷ evs) = trades_of evs
trades_of (deposit row ∷ evs) = trades_of evs
trades_of (order_place row ∷ evs) = trades_of evs
trades_of (order_cancel order_id ts ∷ evs) = trades_of evs
trades_of (order_fill buy_id sell_id fill_size ts ∷ evs) = trades_of evs
trades_of (oracle_price row ∷ evs) = trades_of evs
trades_of (rwa_holder ev ∷ evs) = trades_of evs

find-of_frame : (id : ℕ) (s s' : Store) → SameFrame s s' → find_position id s' ≡ find_position id s
find-of_frame id s s' h = ap (λ rows. find (has_id id) rows) h.positions

find-persist :
    (id : ℕ) (ev : DecodedEvent) (s : Store)
    → find_position id (persist ev s) ≡ after_event id ev (find_position id s)
unfolding persist cancel_order
find-persist id (position_open row) s = find-insert_position id row s
find-persist id (position_close row) s = find-delete_position id row.position_id s
find-persist id (position_modify row) s = refl
find-persist id (liquidation row) s = find-delete_position id row.position_id s
find-persist id (deposit row) s = refl
find-persist id (order_place row) s = find-of_frame id s (insert_order row s) (frame_order row s).0
find-persist id (order_cancel order_id ts) s = refl
find-persist id (order_fill buy sell q ts) s =
    find-of_frame id s (persist (order_fill buy sell q ts) s) (frame_fills buy sell q ts s)
find-persist id (oracle_price row) s =
    find-of_frame id s (insert_oracle_price row s) (frame_price row s).0
find-persist id (rwa_holder ev) s =
    find-of_frame id s (persist (rwa_holder ev) s) (frame_holder ev s).0

-- The table of positions is the map that the events describe: after any events the row of an id is the
-- row of its last opening, and there is none where a close or a liquidation of the id came after it, or
-- where it was never opened and the table had none.
pub replay-positions :
    (id : ℕ) (evs : List DecodedEvent) (s : Store)
    → find_position id (replay evs s) ≡ after_events id evs (find_position id s)
unfolding replay
replay-positions id [] s = refl
replay-positions id (ev ∷ evs) s =
    replay-positions id evs (persist ev s) ∙ ap (after_events id evs) (find-persist id ev s)

trades-persist :
    (ev : DecodedEvent) (s : Store) → (persist ev s).trades ≡ s.trades ++ trades_of (ev ∷ [])
unfolding persist cancel_order insert_position delete_position
trades-persist (position_open row) s = refl
trades-persist (position_close row) s = refl
trades-persist (position_modify row) s = refl
trades-persist (liquidation row) s = sym (append-nil s.trades)
trades-persist (deposit row) s = sym (append-nil s.trades)
trades-persist (order_place row) s = (frame_order row s).0.trades ∙ sym (append-nil s.trades)
trades-persist (order_cancel order_id ts) s = sym (append-nil s.trades)
trades-persist (order_fill buy sell q ts) s =
    (frame_fills buy sell q ts s).trades ∙ sym (append-nil s.trades)
trades-persist (oracle_price row) s = (frame_price row s).0.trades ∙ sym (append-nil s.trades)
trades-persist (rwa_holder ev) s = (frame_holder ev s).0.trades ∙ sym (append-nil s.trades)

trades_of-cons :
    (ev : DecodedEvent) (evs : List DecodedEvent)
    → trades_of (ev ∷ evs) ≡ trades_of (ev ∷ []) ++ trades_of evs
trades_of-cons (position_open row) evs = refl
trades_of-cons (position_close row) evs = refl
trades_of-cons (position_modify row) evs = refl
trades_of-cons (liquidation row) evs = refl
trades_of-cons (deposit row) evs = refl
trades_of-cons (order_place row) evs = refl
trades_of-cons (order_cancel order_id ts) evs = refl
trades_of-cons (order_fill buy sell q ts) evs = refl
trades_of-cons (oracle_price row) evs = refl
trades_of-cons (rwa_holder ev) evs = refl

pub trades-replay :
    (evs : List DecodedEvent) (s : Store) → (replay evs s).trades ≡ s.trades ++ trades_of evs
unfolding replay
trades-replay [] s = sym (append-nil s.trades)
trades-replay (ev ∷ evs) s =
    trades-replay evs (persist ev s)
    ∙ ap (λ t. t ++ trades_of evs) (trades-persist ev s)
    ∙ append_assoc s.trades (trades_of (ev ∷ [])) (trades_of evs)
    ∙ ap (λ t. s.trades ++ t) (sym (trades_of-cons ev evs))

cursor-persist : (ev : DecodedEvent) (s : Store) → (persist ev s).cursor ≡ s.cursor
unfolding persist cancel_order insert_position delete_position
cursor-persist (position_open row) s = refl
cursor-persist (position_close row) s = refl
cursor-persist (position_modify row) s = refl
cursor-persist (liquidation row) s = refl
cursor-persist (deposit row) s = refl
cursor-persist (order_place row) s = (frame_order row s).0.cursor
cursor-persist (order_cancel order_id ts) s = refl
cursor-persist (order_fill buy sell q ts) s = (frame_fills buy sell q ts s).cursor
cursor-persist (oracle_price row) s = (frame_price row s).0.cursor
cursor-persist (rwa_holder ev) s = (frame_holder ev s).0.cursor

pub cursor-replay : (evs : List DecodedEvent) (s : Store) → (replay evs s).cursor ≡ s.cursor
unfolding replay
cursor-replay [] s = refl
cursor-replay (ev ∷ evs) s = cursor-replay evs (persist ev s) ∙ cursor-persist ev s
