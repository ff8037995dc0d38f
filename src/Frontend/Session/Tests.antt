-- ===== src/Frontend/Session/Tests.antt =====
-- A session of a few actions.
use stellax.Base.{ℕ, ◌≡◌, ◌≤◌, refl, true, none, some, List, [], ◌∷◌, find, count}
use stellax.Base.Int.{pos, negsuc}
use stellax.Frontend.Session.{
  SessionPosition, ClosedTrade, initial, by_user, add_position, remove_position, record_close,
}
use stellax.Frontend.Session.Kept.{
  Action, add, remove, close, perform, run, position_at, trade_at, position_after, trade_after,
  run-keeps,
}

abbrev position : ℕ → ℕ → SessionPosition
position id leverage = record {
  position_id = id;
  owner = b'G' ∷ [];
  market_id = 1;
  size = pos 5;
  entry_price = pos 100;
  margin = pos 20;
  leverage = leverage;
  is_long = true;
  last_funding_idx = pos 0;
  open_timestamp = 9;
}

abbrev trade : ClosedTrade
trade = record {
  position_id = 7;
  market_id = 1;
  is_long = true;
  leverage = 2;
  entry_price = pos 100;
  size = pos 5;
  exit_price = pos 90;
  net_pnl = negsuc 9;
  close_fee = pos 1;
  tx_hash = b't' ∷ [];
  closed_at = 50;
  kind = some by_user;
  keeper_reward = none;
  insurance_delta = none;
}

abbrev actions : List Action
actions = add (position 7 2) ∷ add (position 8 3) ∷ close trade ∷ remove 7 ∷ add (position 8 5) ∷ []

run-keeps_example :
    let s = run actions initial in
    (count (position_at 8) s.positions ≤ 1)
    × (count (trade_at 8) s.closed_trades ≤ 1)
    × (find (position_at 8) s.positions ≡ position_after 8 actions none)
    × (find (trade_at 8) s.closed_trades ≡ trade_after 8 actions none)
run-keeps_example = run-keeps 8 actions

left : (run actions initial).positions ≡ position 8 5 ∷ []
unfolding run perform add_position remove_position record_close
left = refl
