-- ===== src/Indexer/Watcher/Tests.antt =====
-- The poll on small answers of the server.
use stellax.Base.{ℕ, ◌<◌, ◌≤◌, ◌≡◌, refl, true, false, none, some, List, [], ◌∷◌, ◌++◌, arith, All}
use stellax.Base.Int.{pos}
use stellax.Indexer.Rows.{PositionRow, TradeRow, closed}
use stellax.Indexer.Store.{Store, empty, insert_position, delete_position}
use stellax.Indexer.Store.Positions.{find_position}
use stellax.Indexer.Watcher.{
  position_open, position_close, persist, Event, Answer, page, failure, scan_events, poll,
  resolve_start_ledger, tick,
}
use stellax.Indexer.Watcher.Replay.{replay, after_events, trades_of, replay-positions}
use stellax.Indexer.Watcher.Valid.{IsValid, persist-IsValid}
use stellax.Indexer.Watcher.Cursor.{tick-advances, tick-counts_twice}
use stellax.Indexer.Watcher.Tables.{scanned, decoded_of, tables, tick-tables}

abbrev row : PositionRow
row = record {
  position_id = 3;
  user = b'A' ∷ [];
  market_id = 1;
  is_long = true;
  size = pos 5;
  entry_price = pos 100;
  leverage = 2;
  opened_at = 77;
  open_tx_hash = b't' ∷ [];
}

abbrev close : TradeRow
close = record {
  user = b'A' ∷ [];
  position_id = 3;
  market_id = 0;
  kind = closed;
  size = pos 0;
  price = pos 110;
  pnl = some (pos 9);
  is_long = false;
  ts = 80;
  tx_hash = b'u' ∷ [];
}

abbrev opens : Event
opens = record { ledger = 500; decoded = some (position_open row) }

abbrev closes : Event
closes = record { ledger = 501; decoded = some (position_close close) }

abbrev answers : List Answer
answers = page (opens ∷ []) (some (b'c' ∷ [])) 600 ∷ page (closes ∷ []) none 600 ∷ []

replay-positions_example :
    find_position 3 (replay (position_open row ∷ position_close close ∷ []) empty)
    ≡ after_events 3 (position_open row ∷ position_close close ∷ []) (find_position 3 empty)
replay-positions_example = replay-positions 3 (position_open row ∷ position_close close ∷ []) empty

empty-IsValid : IsValid empty
empty-IsValid = record {
  one_position = λ id. omega arith;
  one_order = λ id. omega arith;
  holders = (λ feed address. omega arith, tt);
}

persist-IsValid_example : IsValid (persist (position_open row) empty)
persist-IsValid_example = persist-IsValid (position_open row) empty empty-IsValid

abbrev after : Store
after = record empty {
  trades = trades_of (position_open row ∷ position_close close ∷ []);
  cursor = some 601;
}

ends : tick 1 100 600 answers empty ≡ some (after, position_open row ∷ position_close close ∷ [])
unfolding tick poll resolve_start_ledger scan_events persist insert_position delete_position
ends = refl

tick-tables_example :
    ((position_open row ∷ position_close close ∷ []) ≡ decoded_of (scanned 1 answers))
    × (tables after
        ≡ tables (
            replay
              (position_open row ∷ position_close close ∷ [])
              (resolve_start_ledger 1 100 600 empty).1))
tick-tables_example = tick-tables 1 100 600 answers empty ends

tick-advances_example :
    (next : ℕ) × (after.cursor ≡ some next)
    × ((resolve_start_ledger 1 100 600 empty).0 < next)
    × All (λ (ev : Event). ev.ledger < next) (scanned 1 answers)
    × (next ≤ (resolve_start_ledger 1 100 700 after).0)
tick-advances_example = tick-advances 1 100 600 700 answers empty (tt, (tt, tt)) ends

abbrev polled : Store
polled = record empty { cursor = some 500 }

tick-counts_twice_example :
    (s' : Store) × (s'' : Store) × (tick 1 100 600
        (page (opens ∷ []) (some (b'c' ∷ [])) 600 ∷ failure none ∷ [])
        polled
      ≡ some (s', decoded_of (opens ∷ [])))
    × (s'.cursor ≡ some 500)
    × (tick 1 100 590 (page (opens ∷ []) (some (b'c' ∷ [])) 590 ∷ page [] none 590 ∷ []) s'
        ≡ some (s'', decoded_of (opens ∷ [])))
    × (s''.trades
        ≡ ([] ++ trades_of (decoded_of (opens ∷ []))) ++ trades_of (decoded_of (opens ∷ [])))
tick-counts_twice_example =
    tick-counts_twice 1 100 600 600 590 590 590 500 opens [] (b'c' ∷ []) none polled refl refl
      (omega arith) (omega arith)
