-- ===== src/Indexer/Watcher.antt =====
-- The poll of the chain's events (packages/indexer/src/watcher.ts). An event comes decoded, with the
-- number of its ledger; one that `decode` refuses is `none`.
pub mod Frames
pub mod Replay
pub mod Valid
pub mod Tables
pub mod Cursor
mod Tests
use stellax.Base.{
  ℕ, zero, suc, ◌+◌, ◌-◌, ◌≡◌, Bool, true, false, Option, none, some, List, [], ◌∷◌, ◌++◌, leb,
  ◌==◌, if◌then◌else◌, length, max,
}
use stellax.Base.Int.{ℤ}
use stellax.Indexer.Rows.{
  Text, PositionRow, TradeRow, opened, LiquidationRow, DepositRow, OrderRow, OraclePriceRow,
}
use stellax.Indexer.Store.{
  Store, insert_position, delete_position, insert_trade, insert_liquidation, insert_deposit,
  insert_order, cancel_order, fill_order, insert_oracle_price, apply_rwa_mint, apply_rwa_burn,
  apply_rwa_transfer, apply_rwa_yield, set_cursor,
}

pub data RwaHolderEvent : Type 0 where
  rwa_transfer : (feed source to : Text) (amount : ℤ) (ts : ℕ) → RwaHolderEvent
  rwa_mint : (feed address : Text) (amount : ℤ) (ts : ℕ) → RwaHolderEvent
  rwa_burn : (feed address : Text) (amount : ℤ) (ts : ℕ) → RwaHolderEvent
  rwa_yield : (feed address : Text) (amount : ℤ) (ts : ℕ) → RwaHolderEvent

pub data DecodedEvent : Type 0 where
  position_open : PositionRow → DecodedEvent
  position_close : TradeRow → DecodedEvent
  position_modify : TradeRow → DecodedEvent
  liquidation : LiquidationRow → DecodedEvent
  deposit : DepositRow → DecodedEvent
  order_place : OrderRow → DecodedEvent
  order_cancel : (order_id ts : ℕ) → DecodedEvent
  order_fill : (buy_id sell_id : ℕ) (fill_size : ℤ) (ts : ℕ) → DecodedEvent
  oracle_price : OraclePriceRow → DecodedEvent
  rwa_holder : RwaHolderEvent → DecodedEvent

-- the trade that `persist` writes for an opened position
abbrev pub trade_of_open : PositionRow → TradeRow
trade_of_open row = record {
  user = row.user;
  position_id = row.position_id;
  market_id = row.market_id;
  kind = opened;
  size = row.size;
  price = row.entry_price;
  pnl = none;
  is_long = row.is_long;
  ts = row.opened_at;
  tx_hash = row.open_tx_hash;
}

unfoldable pub persist : DecodedEvent → Store → Store
persist (position_open row) s = insert_trade (trade_of_open row) (insert_position row s)
persist (position_close row) s = insert_trade row (delete_position row.position_id s)
persist (position_modify row) s = insert_trade row s
persist (liquidation row) s = insert_liquidation row (delete_position row.position_id s)
persist (deposit row) s = insert_deposit row s
persist (order_place row) s = insert_order row s
persist (order_cancel order_id ts) s = cancel_order order_id ts s
persist (order_fill buy_id sell_id fill_size ts) s =
    fill_order sell_id fill_size ts (fill_order buy_id fill_size ts s)
persist (oracle_price row) s = insert_oracle_price row s
persist (rwa_holder (rwa_transfer feed source to amount ts)) s =
    apply_rwa_transfer feed source to amount ts s
persist (rwa_holder (rwa_mint feed address amount ts)) s = apply_rwa_mint feed address amount ts s
persist (rwa_holder (rwa_burn feed address amount ts)) s = apply_rwa_burn feed address amount ts s
persist (rwa_holder (rwa_yield feed address amount ts)) s = apply_rwa_yield feed address amount ts s

-- `EventResponse`: its ledger (0 where the field is missing) and what `decode` makes of it
pub record Event : Type 0 where
  pub ledger : ℕ
  pub decoded : Option DecodedEvent

-- An answer of `getEvents`: a page, or a failure with the least ledger that its message names.
pub data Answer : Type 0 where
  page : (events : List Event) (cursor : Option Text) (latest_ledger : ℕ) → Answer
  failure : (min_ledger : Option ℕ) → Answer

-- The store, the events handed to `onEvent` in this tick, and `lastLedger`.
pub record Scan : Type 0 where
  pub store : Store
  pub emitted : List DecodedEvent
  pub last_ledger : ℕ

-- one turn of the loop over a page
abbrev pub scan_event : Event → Scan → Scan
scan_event ev s = elim ev.decoded [
  | none ↦ record s { last_ledger = max s.last_ledger ev.ledger }
  | some d ↦ record {
    store = persist d s.store;
    emitted = s.emitted ++ (d ∷ []);
    last_ledger = max s.last_ledger ev.ledger;
  }
]

unfoldable pub scan_events : List Event → Scan → Scan
scan_events [] s = s
scan_events (ev ∷ evs) s = scan_events evs (scan_event ev s)

-- `recoverCursorFromRangeError`
abbrev pub recover_cursor : Option ℕ → Store → Store
recover_cursor none s = s
recover_cursor (some zero) s = s
recover_cursor (some (suc n)) s = set_cursor (suc n) s

abbrev pub finish : ℕ → Scan → Store
finish last s = set_cursor (last + 1) s.store

module _ (page_limit : ℕ) where
  -- The loop of `tick` over the server's answers, in the order of the requests. `none`: the loop asks
  -- for more than the given answers.
  unfoldable pub poll : List Answer → Scan → Option (Store × List DecodedEvent)
  poll [] s = none
  poll (failure min_ledger ∷ rest) s = some (recover_cursor min_ledger s.store, s.emitted)
  poll (page [] cursor latest ∷ rest) s = some (finish (max s.last_ledger latest) s, s.emitted)
  poll (page (ev ∷ evs) none latest ∷ rest) s =
      let s' = scan_events (ev ∷ evs) s in some (finish (max s'.last_ledger latest) s', s'.emitted)
  poll (page (ev ∷ evs) (some cursor) latest ∷ rest) s =
      let s' = scan_events (ev ∷ evs) s in
      let more = poll rest s' in
      if length (ev ∷ evs) == page_limit
      then more
      else some (finish (max s'.last_ledger latest) s', s'.emitted)

  -- `resolveStartLedger`: the ledger to start at and the store after it; `latest` is 0 where the answer
  -- names no ledger.
  unfoldable pub resolve_start_ledger : (lookback latest : ℕ) → Store → ℕ × Store
  resolve_start_ledger lookback latest s =
      let min_start = max 1 (latest - lookback) in
      elim s.cursor [
        | none ↦ (min_start, s)
        | some stored ↦
            if leb min_start stored then (stored, s) else (min_start, set_cursor min_start s)
      ]

  unfoldable pub tick :
      (lookback latest : ℕ) → List Answer → Store → Option (Store × List DecodedEvent)
  unfolding poll resolve_start_ledger
  tick lookback latest answers s =
      let (start, s') = resolve_start_ledger lookback latest s in
      poll answers (record { store = s'; emitted = []; last_ledger = start })
