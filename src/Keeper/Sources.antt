-- ===== src/Keeper/Sources.antt =====
-- What the workers read from the indexer's HTTP answers: `IndexerOrderBookSource` and
-- `IndexerRwaHolderSource` of packages/keeper/src/indexer-sources.ts, `IndexerPositionSource` of
-- packages/keeper/src/workers/liquidation-bot.ts. A number of an answer is an integer. A market, a time
-- or a yield that is no natural number is 0 here: a market 0 is dropped like every market that is not
-- positive, the matcher reads no time, and the indexer keeps no negative yield.
pub mod Served
pub mod Holders
pub mod Positions
mod Tests
use Prim.Native.String.{String}
use stellax.Base.{
  ℕ, Bool, true, false, not, ◌&&◌, Option, none, some, List, [], ◌∷◌, ltb, ◌==◌, filter,
  if◌then◌else◌,
}
use stellax.Base.Int.{ℤ, pos, negsuc, pos_part, ltb_ℤ}
use stellax.Indexer.Rows.{Text, OrderStatus, is_open}
use stellax.Keeper.Clob.{OpenOrder}
use stellax.Keeper.Yield.{RwaHolder}
use stellax.Keeper.Liquidation.{PositionLike}

-- A value in an answer; a string is empty, the decimal form of an integer, or another one.
pub data Field : Type 0 where
  missing : Field
  number : ℤ → Field
  numeral : ℤ → Field
  empty_string : Field
  other_string : Field
  boolean : Bool → Field

-- a property under its two names
pub record Named : Type 0 where
  pub camel : Field
  pub snake : Field

-- `a ?? b`
abbrev pub or_field : Field → Field → Field
or_field missing b = b
or_field (number n) b = number n
or_field (numeral n) b = numeral n
or_field empty_string b = empty_string
or_field other_string b = other_string
or_field (boolean c) b = boolean c

abbrev pub pick : Named → Field
pick f = or_field f.camel f.snake

-- `asBigInt`; `none` where `BigInt` throws
abbrev pub as_big_int : Field → Option ℤ
as_big_int missing = some (pos 0)
as_big_int (number n) = some n
as_big_int (numeral n) = some n
as_big_int empty_string = some (pos 0)
as_big_int other_string = none
as_big_int (boolean b) = some (pos 0)

-- `asNumber`, where it is a natural number
abbrev pub as_number : Field → ℕ
as_number missing = 0
as_number (number n) = pos_part n
as_number (numeral n) = pos_part n
as_number empty_string = 0
as_number other_string = 0
as_number (boolean b) = 0

-- `Boolean(v)`
abbrev pub is_nonzero : ℤ → Bool
is_nonzero (pos n) = not (n == 0)
is_nonzero (negsuc n) = true

abbrev pub truthy : Field → Bool
truthy missing = false
truthy (number n) = is_nonzero n
truthy (numeral n) = true
truthy empty_string = false
truthy other_string = true
truthy (boolean b) = b

infixl 5 ◌>>=◌
abbrev pub ◌>>=◌ : {A B : Type 0} → Option A → (A → Option B) → Option B
none >>= f = none
some a >>= f = f a

-- `rows.map(f)` where `f` may throw
unfoldable pub map_rows : {A B : Type 0} → (A → Option B) → List A → Option (List B)
map_rows f [] = some []
map_rows f (x ∷ xs) = do y ← f x; ys ← map_rows f xs; some (y ∷ ys)

-- an answer, or the empty list where the fetch fails or a row does not parse
abbrev pub rows_or_none : {A : Type 0} → Option (List A) → List A
rows_or_none none = []
rows_or_none (some xs) = xs

-- the status of a row: missing, one of the known ones, or another
pub data RowStatus : Type 0 where
  no_status : RowStatus
  known : OrderStatus → RowStatus
  other_status : RowStatus

pub record IndexerOrderRow : Type 0 where
  pub order_id : Named
  pub trader : String
  pub market_id : Named
  pub is_long : Named
  pub price : Field
  pub size : Field
  pub filled_size : Named
  pub placed_at : Named
  pub updated_at : Named
  pub status : RowStatus

abbrev pub may_be_open : RowStatus → Bool
may_be_open no_status = true
may_be_open (known s) = is_open s
may_be_open other_status = false

-- a parsed row, before those that are no live orders are dropped
pub record ParsedOrder : Type 0 where
  pub order_id : ℤ
  pub trader : String
  pub market_id : ℕ
  pub is_long : Bool
  pub price : ℤ
  pub size : ℤ
  pub filled_size : ℤ
  pub expires_at : ℕ

unfoldable pub parse_order : IndexerOrderRow → Option ParsedOrder
parse_order row = do
  order_id ← as_big_int (pick row.order_id)
  price ← as_big_int row.price
  size ← as_big_int row.size
  filled_size ← as_big_int (pick row.filled_size)
  some (record {
    order_id = order_id;
    trader = row.trader;
    market_id = as_number (pick row.market_id);
    is_long = truthy (pick row.is_long);
    price = price;
    size = size;
    filled_size = filled_size;
    expires_at = as_number (or_field (pick row.updated_at) (pick row.placed_at));
  })

abbrev pub is_live : ParsedOrder → Bool
is_live o = ltb_ℤ (pos 0) o.order_id && ltb 0 o.market_id && ltb_ℤ o.filled_size o.size

abbrev pub order_of : ParsedOrder → OpenOrder
order_of o = record {
  order_id = pos_part o.order_id;
  trader = o.trader;
  market_id = o.market_id;
  is_long = o.is_long;
  price = o.price;
  size = o.size;
  filled_size = o.filled_size;
  expires_at = o.expires_at;
}

abbrev pub live_orders : List ParsedOrder → List OpenOrder
live_orders [] = []
live_orders (o ∷ os) = if is_live o then order_of o ∷ live_orders os else live_orders os

-- `getOpenOrders` on the answer of the endpoint
unfoldable pub get_open_orders : Option (List IndexerOrderRow) → List OpenOrder
unfolding map_rows parse_order
get_open_orders none = []
get_open_orders (some rows) = live_orders (
    rows_or_none
      (map_rows parse_order (filter (λ (r : IndexerOrderRow). may_be_open r.status) rows)))

pub record IndexerRwaHolderRow : Type 0 where
  pub address : String
  pub balance_native : Named
  pub cumulative_yield : Named
  pub first_seen_ts : Named

unfoldable pub parse_holder : IndexerRwaHolderRow → Option RwaHolder
parse_holder row = do
  balance ← as_big_int (pick row.balance_native)
  credited ← as_big_int (pick row.cumulative_yield)
  some (record {
    address = row.address;
    balance_native = pos_part balance;
    cumulative_yield = pos_part credited;
    since_ts = as_number (pick row.first_seen_ts);
  })

abbrev pub is_holding : RwaHolder → Bool
is_holding h = ltb 0 h.balance_native && ltb 0 h.since_ts

-- `getHolders`
unfoldable pub get_holders : Option (List IndexerRwaHolderRow) → List RwaHolder
unfolding map_rows parse_holder
get_holders none = []
get_holders (some rows) = filter is_holding (rows_or_none (map_rows parse_holder rows))

pub record IndexerPositionRow : Type 0 where
  pub position_id : Named
  pub user : Text
  pub market_id : Named

-- `BigInt(v.toString())`, where `v` falls back to 0
abbrev pub as_id : Field → Option ℕ
as_id missing = some 0
as_id (number n) = some (pos_part n)
as_id (numeral n) = some (pos_part n)
as_id empty_string = some 0
as_id other_string = none
as_id (boolean b) = none

unfoldable pub parse_position : IndexerPositionRow → Option PositionLike
parse_position row = do
  position_id ← as_id (pick row.position_id)
  some (record {
    position_id = position_id;
    user = row.user;
    market_id = as_number (pick row.market_id);
  })

-- `getOpenPositions`
unfoldable pub get_open_positions : Option (List IndexerPositionRow) → List PositionLike
unfolding map_rows parse_position
get_open_positions none = []
get_open_positions (some rows) = rows_or_none (map_rows parse_position rows)
