-- ===== src/Indexer/Watcher/Valid.antt =====
-- The invariant of the tables.
use stellax.Base.{ℕ, ◌≤◌, ◌≡◌, refl, sym, ◌∙◌, List, [], ◌∷◌, count, subst, arith}
use stellax.Base.Int.{pos, neg}
use stellax.Indexer.Rows.{PositionRow}
use stellax.Indexer.Store.{
  Store, insert_position, delete_position, insert_oracle_price, insert_trade, insert_order,
  cancel_order, fill_order, adjust_rwa_holder, apply_rwa_mint, apply_rwa_burn, apply_rwa_transfer,
  apply_rwa_yield,
}
use stellax.Indexer.Store.Positions.{
  has_id, rows_of, rows_of-insert_position, rows_of-delete_position,
}
use stellax.Indexer.Store.Orders.{
  has_order, order_rows, order_rows-fill, order_rows-cancel, order_rows-insert,
}
use stellax.Indexer.Store.HolderRows.{IsValidHolders, adjust-IsValidHolders}
use stellax.Indexer.Watcher.{
  RwaHolderEvent, rwa_transfer, rwa_mint, rwa_burn, rwa_yield, DecodedEvent, position_open,
  position_close, position_modify, liquidation, deposit, order_place, order_cancel, order_fill,
  oracle_price, rwa_holder, trade_of_open, persist,
}
use stellax.Indexer.Watcher.Frames.{SameFrame, frame_fill, frame_order, frame_price, frame_holder}
use stellax.Indexer.Watcher.Replay.{replay}

-- An id has at most one position and at most one order; a holder of a feed has at most one row, with a
-- balance and a yield that are not negative.
pub record IsValid (s : Store) : Type 0 where
  pub one_position : (id : ℕ) → rows_of id s ≤ 1
  pub one_order : (id : ℕ) → order_rows id s ≤ 1
  pub holders : IsValidHolders s.rwa_holders

rows_of-frame : (id : ℕ) (s s' : Store) → SameFrame s s' → rows_of id s ≤ 1 → rows_of id s' ≤ 1
rows_of-frame id s s' h k = subst (λ rows. count (has_id id) rows ≤ 1) (sym h.positions) k

orders_of-same :
    (id : ℕ) (s s' : Store) → s'.orders ≡ s.orders → order_rows id s ≤ 1 → order_rows id s' ≤ 1
orders_of-same id s s' h k = subst (λ rows. count (has_order id) rows ≤ 1) (sym h) k

holders_valid :
    (ev : RwaHolderEvent) (s : Store)
    → IsValidHolders s.rwa_holders
    → IsValidHolders (persist (rwa_holder ev) s).rwa_holders
unfolding persist apply_rwa_mint apply_rwa_burn apply_rwa_transfer apply_rwa_yield
holders_valid (rwa_mint feed address amount ts) s h =
    adjust-IsValidHolders feed address amount (pos 0) ts s h
holders_valid (rwa_burn feed address amount ts) s h =
    adjust-IsValidHolders feed address (neg amount) (pos 0) ts s h
holders_valid (rwa_yield feed address amount ts) s h =
    adjust-IsValidHolders feed address amount amount ts s h
holders_valid (rwa_transfer feed source to amount ts) s h =
    let mid = adjust_rwa_holder feed source (neg amount) (pos 0) ts s in
    adjust-IsValidHolders feed to amount (pos 0) ts mid
      (adjust-IsValidHolders feed source (neg amount) (pos 0) ts s h)

deleted :
    (row : ℕ) (s s' : Store)
    → s'.positions ≡ (delete_position row s).positions
    → s'.orders ≡ s.orders
    → s'.rwa_holders ≡ s.rwa_holders
    → IsValid s
    → IsValid s'
deleted id s s' p o r h = record {
  one_position = λ k.
      subst (λ rows. count (has_id k) rows ≤ 1) (sym p)
        (rw (rows_of-delete_position k id s) (ground (arith, h.one_position k)));
  one_order = λ k. orders_of-same k s s' o (h.one_order k);
  holders = subst IsValidHolders (sym r) h.holders;
}

inserted :
    (row : PositionRow) (s : Store)
    → IsValid s
    → IsValid (insert_trade (trade_of_open row) (insert_position row s))
unfolding insert_position
inserted row s h = record {
  one_position = λ id. rw (rows_of-insert_position id row s) (ground (arith, h.one_position id));
  one_order = h.one_order;
  holders = h.holders;
}

cancelled : (id ts : ℕ) (s : Store) → IsValid s → IsValid (cancel_order id ts s)
unfolding cancel_order
cancelled id ts s h = record {
  one_position = h.one_position;
  one_order = λ k. rw (order_rows-cancel k id ts s) (h.one_order k);
  holders = h.holders;
}

-- Every event keeps the invariant of the tables: at most one position of an id, one order of an id and
-- one row of a holder, and no negative balance or yield.
pub persist-IsValid : (ev : DecodedEvent) (s : Store) → IsValid s → IsValid (persist ev s)
unfolding persist delete_position
persist-IsValid (position_open row) s h = inserted row s h
persist-IsValid (position_close row) s h =
    deleted row.position_id s (persist (position_close row) s) refl refl refl h
persist-IsValid (position_modify row) s h = record {
  one_position = h.one_position;
  one_order = h.one_order;
  holders = h.holders;
}
persist-IsValid (liquidation row) s h =
    deleted row.position_id s (persist (liquidation row) s) refl refl refl h
persist-IsValid (deposit row) s h = record {
  one_position = h.one_position;
  one_order = h.one_order;
  holders = h.holders;
}
persist-IsValid (order_place row) s h =
    let frame = frame_order row s in
    record {
      one_position = λ id. rows_of-frame id s (insert_order row s) frame.0 (h.one_position id);
      one_order = λ id. order_rows-insert id row s (h.one_order id);
      holders = subst IsValidHolders (sym frame.1) h.holders;
    }
persist-IsValid (order_cancel order_id ts) s h = cancelled order_id ts s h
persist-IsValid (order_fill buy sell q ts) s h =
    let mid = fill_order buy q ts s in
    let first = frame_fill buy q ts s in
    let second = frame_fill sell q ts mid in
    record {
      one_position = λ id.
          rows_of-frame id mid (fill_order sell q ts mid) second.0
            (rows_of-frame id s mid first.0 (h.one_position id));
      one_order = λ id.
          rw (order_rows-fill id sell q ts mid)
            (rw (order_rows-fill id buy q ts s) (h.one_order id));
      holders = subst IsValidHolders (sym (second.1 ∙ first.1)) h.holders;
    }
persist-IsValid (oracle_price row) s h =
    let (frame, holders, orders) = frame_price row s in
    record {
      one_position = λ id. rows_of-frame id s (insert_oracle_price row s) frame (h.one_position id);
      one_order = λ id. orders_of-same id s (insert_oracle_price row s) orders (h.one_order id);
      holders = subst IsValidHolders (sym holders) h.holders;
    }
persist-IsValid (rwa_holder ev) s h =
    let frame = frame_holder ev s in
    record {
      one_position =
          λ id. rows_of-frame id s (persist (rwa_holder ev) s) frame.0 (h.one_position id);
      one_order = λ id. orders_of-same id s (persist (rwa_holder ev) s) frame.1 (h.one_order id);
      holders = holders_valid ev s h.holders;
    }

pub replay-IsValid : (evs : List DecodedEvent) (s : Store) → IsValid s → IsValid (replay evs s)
unfolding replay
replay-IsValid [] s h = h
replay-IsValid (ev ∷ evs) s h = replay-IsValid evs (persist ev s) (persist-IsValid ev s h)
