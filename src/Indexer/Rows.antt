-- ===== src/Indexer/Rows.antt =====
-- The rows of the tables (packages/indexer/src/db.ts). The source keeps a 64-bit or 128-bit integer as
-- its decimal form; here it is the integer. An id of the database's own is the place in the table.
use stellax.Base.{
  ℕ, ◌≡◌, refl, Bool, true, false, ◌&&◌, Option, List, [], ◌∷◌, ◌==◌, ==_iff, arith, map, leb,
  if◌then◌else◌, ◌-◌,
}
use stellax.Base.Int.{ℤ}

-- a string, as its character codes
abbrev pub Text : Type 0
Text = List ℕ

unfoldable pub same_text : Text → Text → Bool
same_text [] [] = true
same_text [] (b ∷ t) = false
same_text (a ∷ s) [] = false
same_text (a ∷ s) (b ∷ t) = (a == b) && same_text s t

pub same_text_refl : (s : Text) → same_text s s ≡ true
unfolding same_text
same_text_refl [] = refl
same_text_refl (a ∷ s) = ground (arith, same_text_refl s)

pub same_text_eq : (s t : Text) → same_text s t ≡ true → s ≡ t
unfolding same_text
same_text_eq [] [] h = refl
same_text_eq [] (b ∷ t) h = cc
same_text_eq (a ∷ s) [] h = cc
same_text_eq (a ∷ s) (b ∷ t) h = ground (arith, ==_iff a b, same_text_eq s t)

pub same_text_comm : (s t : Text) → same_text s t ≡ same_text t s
unfolding same_text
same_text_comm [] [] = refl
same_text_comm [] (b ∷ t) = refl
same_text_comm (a ∷ s) [] = refl
same_text_comm (a ∷ s) (b ∷ t) = ground (arith, same_text_comm s t)

-- `toUpperCase` on ASCII
abbrev pub to_upper_case : Text → Text
to_upper_case s = map (λ c. if leb b'a' c && leb c b'z' then c - 32 else c) s

pub record PositionRow : Type 0 where
  pub position_id : ℕ
  pub user : Text
  pub market_id : ℕ
  pub is_long : Bool
  pub size : ℤ
  pub entry_price : ℤ
  pub leverage : ℕ
  pub opened_at : ℕ
  pub open_tx_hash : Text

pub data TradeKind : Type 0 where
  opened : TradeKind
  closed : TradeKind
  modified : TradeKind

pub record TradeRow : Type 0 where
  pub user : Text
  pub position_id : ℕ
  pub market_id : ℕ
  pub kind : TradeKind
  pub size : ℤ
  pub price : ℤ
  pub pnl : Option ℤ
  pub is_long : Bool
  pub ts : ℕ
  pub tx_hash : Text

pub record LiquidationRow : Type 0 where
  pub user : Text
  pub position_id : ℕ
  pub oracle_price : ℤ
  pub remaining_margin : ℤ
  pub keeper_reward : ℤ
  pub ts : ℕ
  pub tx_hash : Text

pub data Direction : Type 0 where
  inbound : Direction
  outbound : Direction

pub record DepositRow : Type 0 where
  pub direction : Direction
  pub user : Text
  pub amount : ℤ
  pub dest_chain : Option Text
  pub ts : ℕ
  pub tx_hash : Text

pub data OrderStatus : Type 0 where
  status_open : OrderStatus
  status_filled : OrderStatus
  status_cancelled : OrderStatus

pub record OrderRow : Type 0 where
  pub order_id : ℕ
  pub trader : Text
  pub market_id : ℕ
  pub is_long : Bool
  pub price : ℤ
  pub size : ℤ
  pub filled_size : ℤ
  pub status : OrderStatus
  pub placed_at : ℕ
  pub updated_at : ℕ
  pub place_tx_hash : Text

pub data PriceSource : Type 0 where
  redstone : PriceSource
  admin : PriceSource

pub record OraclePriceRow : Type 0 where
  pub feed : Text
  pub price : ℤ
  pub package_timestamp : ℕ
  pub write_timestamp : ℕ
  pub source : PriceSource
  pub tx_hash : Text

pub record RwaHolderRow : Type 0 where
  pub feed : Text
  pub address : Text
  pub balance_native : ℤ
  pub cumulative_yield : ℤ
  pub first_seen_ts : ℕ
  pub updated_at : ℕ

abbrev pub is_open : OrderStatus → Bool
is_open status_open = true
is_open status_filled = false
is_open status_cancelled = false

abbrev pub same_source : PriceSource → PriceSource → Bool
same_source redstone redstone = true
same_source redstone admin = false
same_source admin redstone = false
same_source admin admin = true
