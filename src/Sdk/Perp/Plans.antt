-- ===== src/Sdk/Perp/Plans.antt =====
-- The structs that the perp engine returns and their decoders (packages/sdk/src/clients/perp-engine.ts).
use Prim.Native.String.{String}
use stellax.Base.{Bool, Option, none, some, if◌then◌else◌}
use stellax.Base.Int.{ℤ}
use stellax.Sdk.Native.{
  Native, Number, ◌>>=◌, big_int, to_number, to_text, to_boolean, get, nullable_text,
}
use stellax.Sdk.Xdr.{Xdr}
use stellax.Sdk.ScVal.{raw, dec_address}
use stellax.Sdk.Perp.Orders.{OrderTypeVariant, decode_order_type}

pub record SkewState : Type 0 where
  pub skew : ℤ
  pub skew_scale : ℤ
  pub maker_rebate_bps : Number

pub record PendingOrder : Type 0 where
  pub order_id : ℤ
  pub user : String
  pub market_id : Number
  pub size : ℤ
  pub is_long : Bool
  pub leverage : Number
  pub max_slippage : Number
  pub order_type : OrderTypeVariant
  pub created_ledger : Number
  pub expiry_ledger : Number

pub record BracketGroup : Type 0 where
  pub parent_id : ℤ
  pub take_profit_id : ℤ
  pub stop_loss_id : ℤ
  pub user : String
  pub active : Bool

unfoldable pub decode_bracket_group_of : Native → Option BracketGroup
decode_bracket_group_of o = do
  parent_id ← big_int (get o "parent_id")
  take_profit_id ← big_int (get o "take_profit_id")
  stop_loss_id ← big_int (get o "stop_loss_id")
  user ← to_text (get o "user")
  let active = to_boolean (get o "active")
  some (record {
    parent_id = parent_id;
    take_profit_id = take_profit_id;
    stop_loss_id = stop_loss_id;
    user = user;
    active = active;
  })

pub record TwapPlan : Type 0 where
  pub plan_id : ℤ
  pub user : String
  pub market_id : Number
  pub total_size : ℤ
  pub size_filled : ℤ
  pub is_long : Bool
  pub leverage : Number
  pub max_slippage : Number
  pub slices : Number
  pub slices_released : Number
  pub interval_ledgers : Number
  pub start_ledger : Number
  pub expiry_ledger : Number
  pub active : Bool

unfoldable pub decode_twap_plan_of : Native → Option TwapPlan
decode_twap_plan_of o = do
  plan_id ← big_int (get o "plan_id")
  user ← to_text (get o "user")
  market_id ← to_number (get o "market_id")
  total_size ← big_int (get o "total_size")
  size_filled ← big_int (get o "size_filled")
  let is_long = to_boolean (get o "is_long")
  leverage ← to_number (get o "leverage")
  max_slippage ← to_number (get o "max_slippage")
  slices ← to_number (get o "slices")
  slices_released ← to_number (get o "slices_released")
  interval_ledgers ← to_number (get o "interval_ledgers")
  start_ledger ← to_number (get o "start_ledger")
  expiry_ledger ← to_number (get o "expiry_ledger")
  let active = to_boolean (get o "active")
  some (record {
    plan_id = plan_id;
    user = user;
    market_id = market_id;
    total_size = total_size;
    size_filled = size_filled;
    is_long = is_long;
    leverage = leverage;
    max_slippage = max_slippage;
    slices = slices;
    slices_released = slices_released;
    interval_ledgers = interval_ledgers;
    start_ledger = start_ledger;
    expiry_ledger = expiry_ledger;
    active = active;
  })

pub record IcebergPlan : Type 0 where
  pub plan_id : ℤ
  pub user : String
  pub market_id : Number
  pub total_size : ℤ
  pub display_size : ℤ
  pub size_filled : ℤ
  pub is_long : Bool
  pub leverage : Number
  pub max_slippage : Number
  pub entry_price : ℤ
  pub expiry_ledger : Number
  pub active : Bool

unfoldable pub decode_iceberg_plan_of : Native → Option IcebergPlan
decode_iceberg_plan_of o = do
  plan_id ← big_int (get o "plan_id")
  user ← to_text (get o "user")
  market_id ← to_number (get o "market_id")
  total_size ← big_int (get o "total_size")
  display_size ← big_int (get o "display_size")
  size_filled ← big_int (get o "size_filled")
  let is_long = to_boolean (get o "is_long")
  leverage ← to_number (get o "leverage")
  max_slippage ← to_number (get o "max_slippage")
  entry_price ← big_int (get o "entry_price")
  expiry_ledger ← to_number (get o "expiry_ledger")
  let active = to_boolean (get o "active")
  some (record {
    plan_id = plan_id;
    user = user;
    market_id = market_id;
    total_size = total_size;
    display_size = display_size;
    size_filled = size_filled;
    is_long = is_long;
    leverage = leverage;
    max_slippage = max_slippage;
    entry_price = entry_price;
    expiry_ledger = expiry_ledger;
    active = active;
  })

module _ (x : Xdr) where
  open x use {ScVal}

  unfoldable pub decode_skew_state : Option ScVal → Option SkewState
  unfolding raw
  decode_skew_state v = do
    let o = raw x v
    skew ← big_int (get o "skew")
    skew_scale ← big_int (get o "skew_scale")
    maker_rebate_bps ← to_number (get o "maker_rebate_bps")
    some (record { skew = skew; skew_scale = skew_scale; maker_rebate_bps = maker_rebate_bps })

  unfoldable pub decode_pending_order : Option ScVal → Option PendingOrder
  unfolding raw decode_order_type
  decode_pending_order v = do
    let o = raw x v
    order_id ← big_int (get o "order_id")
    user ← to_text (get o "user")
    market_id ← to_number (get o "market_id")
    size ← big_int (get o "size")
    let is_long = to_boolean (get o "is_long")
    leverage ← to_number (get o "leverage")
    max_slippage ← to_number (get o "max_slippage")
    order_type ← decode_order_type (get o "order_type")
    created_ledger ← to_number (get o "created_ledger")
    expiry_ledger ← to_number (get o "expiry_ledger")
    some (record {
      order_id = order_id;
      user = user;
      market_id = market_id;
      size = size;
      is_long = is_long;
      leverage = leverage;
      max_slippage = max_slippage;
      order_type = order_type;
      created_ledger = created_ledger;
      expiry_ledger = expiry_ledger;
    })

  -- nothing for a value that is falsy
  unfoldable pub decode_bracket_group : Option ScVal → Option (Option BracketGroup)
  unfolding raw decode_bracket_group_of
  decode_bracket_group v =
      let o = raw x v in
      let plan = decode_bracket_group_of o >>= (λ p. some (some p)) in
      if to_boolean o then plan else some none

  -- nothing for a value that is falsy
  unfoldable pub decode_twap_plan : Option ScVal → Option (Option TwapPlan)
  unfolding raw decode_twap_plan_of
  decode_twap_plan v =
      let o = raw x v in
      let plan = decode_twap_plan_of o >>= (λ p. some (some p)) in
      if to_boolean o then plan else some none

  -- nothing for a value that is falsy
  unfoldable pub decode_iceberg_plan : Option ScVal → Option (Option IcebergPlan)
  unfolding raw decode_iceberg_plan_of
  decode_iceberg_plan v =
      let o = raw x v in
      let plan = decode_iceberg_plan_of o >>= (λ p. some (some p)) in
      if to_boolean o then plan else some none

  -- `raw == null ? undefined : String(raw)`
  unfoldable pub decode_clob : Option ScVal → Option (Option String)
  unfolding raw
  decode_clob v = nullable_text (raw x v)

  unfoldable pub decode_slp_vault : Option ScVal → Option (Option String)
  unfolding dec_address
  decode_slp_vault none = some none
  decode_slp_vault (some v) =
      let a = dec_address x (some v) >>= (λ a. some (some a)) in
      if x.is_void v then some none else a
