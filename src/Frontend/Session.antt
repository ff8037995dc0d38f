-- ===== src/Frontend/Session.antt =====
-- The store of the session's positions and closed trades (packages/frontend/src/stores/sessionStore.ts).
pub mod Kept
mod Tests
use stellax.Base.{ℕ, Bool, not, Option, List, [], ◌∷◌, ◌++◌, ◌==◌, filter}
use stellax.Base.Int.{ℤ}
use stellax.Indexer.Rows.{Text}

pub record SessionPosition : Type 0 where
  pub position_id : ℕ
  pub owner : Text
  pub market_id : ℕ
  pub size : ℤ
  pub entry_price : ℤ
  pub margin : ℤ
  pub leverage : ℕ
  pub is_long : Bool
  pub last_funding_idx : ℤ
  pub open_timestamp : ℕ

pub data CloseKind : Type 0 where
  by_user : CloseKind
  by_liquidation : CloseKind

pub record ClosedTrade : Type 0 where
  pub position_id : ℕ
  pub market_id : ℕ
  pub is_long : Bool
  pub leverage : ℕ
  pub entry_price : ℤ
  pub size : ℤ
  pub exit_price : ℤ
  pub net_pnl : ℤ
  pub close_fee : ℤ
  pub tx_hash : Text
  pub closed_at : ℕ
  pub kind : Option CloseKind
  pub keeper_reward : Option ℤ
  pub insurance_delta : Option ℤ

pub record SessionState : Type 0 where
  pub positions : List SessionPosition
  pub closed_trades : List ClosedTrade

abbrev pub initial : SessionState
initial = record { positions = []; closed_trades = [] }

abbrev pub other_position : ℕ → SessionPosition → Bool
other_position id p = not (p.position_id == id)

abbrev pub other_trade : ℕ → ClosedTrade → Bool
other_trade id t = not (t.position_id == id)

unfoldable pub add_position : SessionPosition → SessionState → SessionState
add_position p s = record s {
  positions = filter (other_position p.position_id) s.positions ++ (p ∷ []);
}

unfoldable pub remove_position : ℕ → SessionState → SessionState
remove_position id s = record s { positions = filter (other_position id) s.positions }

unfoldable pub record_close : ClosedTrade → SessionState → SessionState
record_close t s = record s {
  closed_trades = t ∷ filter (other_trade t.position_id) s.closed_trades;
}
