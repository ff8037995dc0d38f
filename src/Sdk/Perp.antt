-- ===== src/Sdk/Perp.antt =====
-- The calls of the perp engine (packages/sdk/src/clients/perp-engine.ts, `PerpEngineClient`).
pub mod Orders
pub mod Plans
pub mod Typed
pub mod Broken
pub mod OrderType
pub mod Markets
mod Tests
pub mod Reads
pub mod Abi
pub mod Fits
use Prim.Native.String.{String}
use stellax.Base.{ℕ, Bool, Option, some, List, [], ◌∷◌, map}
use stellax.Base.Int.{ℤ}
use stellax.Sdk.Native.{Number, to_boolean}
use stellax.Sdk.ScVal.{
  u32, u64, i128, bool, bytes_val, bytes_n, address, vec, raw, dec_bigint, dec_number,
}
use stellax.Sdk.Client.{
  ContractClient, InvokeOptions, Call, Read, invoke, simulate_return, price_bytes,
}
use stellax.Sdk.ScVal.Types.{Position}
use stellax.Sdk.ScVal.Structs.{position}
use stellax.Sdk.Perp.Orders.{OrderTypeVariant, encode_order_type, feed_id_to_bytes}
use stellax.Sdk.Perp.Plans.{
  SkewState, decode_skew_state, PendingOrder, decode_pending_order, BracketGroup,
  decode_bracket_group, TwapPlan, decode_twap_plan, IcebergPlan, decode_iceberg_plan, decode_clob,
  decode_slp_vault,
}

module _ (c : ContractClient) where
  open c use {xdr}

  unfoldable pub get_position : String → ℤ → Read xdr.ScVal Position
  unfolding simulate_return
  get_position user position_id =
      simulate_return c "get_position" (address xdr user ∷ u64 xdr position_id ∷ []) (position xdr)

  unfoldable pub get_unrealized_pnl : ℤ → Read xdr.ScVal ℤ
  unfolding simulate_return
  get_unrealized_pnl position_id =
      simulate_return c "get_unrealized_pnl" (u64 xdr position_id ∷ []) (dec_bigint xdr)

  unfoldable pub get_mark_price : ℤ → Read xdr.ScVal ℤ
  unfolding simulate_return
  get_mark_price market_id =
      simulate_return c "get_mark_price" (u32 xdr market_id ∷ []) (dec_bigint xdr)

  unfoldable pub version : Read xdr.ScVal Number
  unfolding simulate_return
  version = simulate_return c "version" ([]) (dec_number xdr)

  unfoldable pub open_position :
      String → ℤ → ℤ → Bool → ℤ → ℤ → InvokeOptions → Option (List ℕ) → Call xdr.ScVal
  unfolding invoke
  open_position user market_id size is_long leverage max_slippage_bps opts price_payload =
      invoke c "open_position"
        (address xdr user
          ∷ u32 xdr market_id
          ∷ i128 xdr size
          ∷ bool xdr is_long
          ∷ u32 xdr leverage
          ∷ u32 xdr max_slippage_bps
          ∷ price_bytes c price_payload
          ∷ [])
        opts

  unfoldable pub close_position : String → ℤ → InvokeOptions → Option (List ℕ) → Call xdr.ScVal
  unfolding invoke
  close_position user position_id opts price_payload =
      invoke c "close_position"
        (address xdr user ∷ u64 xdr position_id ∷ price_bytes c price_payload ∷ []) opts

  unfoldable pub open_position_with_update :
      String
      → ℤ
      → ℤ
      → Bool
      → ℤ
      → ℤ
      → List ℕ
      → List String
      → InvokeOptions
      → Option (List ℕ)
      → Call xdr.ScVal
  unfolding invoke
  open_position_with_update user market_id size is_long leverage max_slippage_bps pyth_update_data
        pyth_feed_ids opts price_payload =
      invoke c "open_position_with_update"
        (address xdr user
          ∷ u32 xdr market_id
          ∷ i128 xdr size
          ∷ bool xdr is_long
          ∷ u32 xdr leverage
          ∷ u32 xdr max_slippage_bps
          ∷ price_bytes c price_payload
          ∷ bytes_val xdr pyth_update_data
          ∷ vec xdr (map (feed_id_to_bytes c) pyth_feed_ids)
          ∷ [])
        opts

  unfoldable pub close_position_with_update :
      String → ℤ → List ℕ → List String → InvokeOptions → Option (List ℕ) → Call xdr.ScVal
  unfolding invoke
  close_position_with_update user position_id pyth_update_data pyth_feed_ids opts price_payload =
      invoke c "close_position_with_update"
        (address xdr user
          ∷ u64 xdr position_id
          ∷ price_bytes c price_payload
          ∷ bytes_val xdr pyth_update_data
          ∷ vec xdr (map (feed_id_to_bytes c) pyth_feed_ids)
          ∷ [])
        opts

  unfoldable pub upgrade : List ℕ → InvokeOptions → Call xdr.ScVal
  unfolding invoke
  upgrade new_wasm_hash opts = invoke c "upgrade" (bytes_n xdr new_wasm_hash ∷ []) opts

  unfoldable pub get_skew_state : ℤ → Read xdr.ScVal SkewState
  unfolding simulate_return
  get_skew_state market_id =
      simulate_return c "get_skew_state" (u32 xdr market_id ∷ []) (decode_skew_state xdr)

  unfoldable pub set_clob : String → InvokeOptions → Call xdr.ScVal
  unfolding invoke
  set_clob clob opts = invoke c "set_clob" (address xdr clob ∷ []) opts

  unfoldable pub get_clob : Read xdr.ScVal (Option String)
  unfolding simulate_return
  get_clob = simulate_return c "get_clob" ([]) (decode_clob xdr)

  unfoldable pub create_order :
      String → ℤ → ℤ → Bool → ℤ → ℤ → OrderTypeVariant → ℤ → InvokeOptions → Call xdr.ScVal
  unfolding invoke
  create_order user market_id size is_long leverage max_slippage_bps order_type expiry_ledger_offset
        opts =
      invoke c "create_order"
        (address xdr user
          ∷ u32 xdr market_id
          ∷ i128 xdr size
          ∷ bool xdr is_long
          ∷ u32 xdr leverage
          ∷ u32 xdr max_slippage_bps
          ∷ encode_order_type c order_type
          ∷ u32 xdr expiry_ledger_offset
          ∷ [])
        opts

  unfoldable pub execute_order : String → ℤ → InvokeOptions → Option (List ℕ) → Call xdr.ScVal
  unfolding invoke
  execute_order caller order_id opts price_payload =
      invoke c "execute_order"
        (address xdr caller ∷ u64 xdr order_id ∷ price_bytes c price_payload ∷ []) opts

  unfoldable pub cancel_pending_order : String → ℤ → InvokeOptions → Call xdr.ScVal
  unfolding invoke
  cancel_pending_order user order_id opts =
      invoke c "cancel_pending_order" (address xdr user ∷ u64 xdr order_id ∷ []) opts

  unfoldable pub get_pending_order : ℤ → Read xdr.ScVal PendingOrder
  unfolding simulate_return
  get_pending_order order_id =
      simulate_return c "get_pending_order" (u64 xdr order_id ∷ []) (decode_pending_order xdr)

  unfoldable pub update_trailing_anchor : String → ℤ → ℤ → InvokeOptions → Call xdr.ScVal
  unfolding invoke
  update_trailing_anchor caller order_id new_anchor opts =
      invoke c "update_trailing_anchor"
        (address xdr caller ∷ u64 xdr order_id ∷ i128 xdr new_anchor ∷ []) opts

  unfoldable pub bracket_link : String → ℤ → ℤ → ℤ → InvokeOptions → Call xdr.ScVal
  unfolding invoke
  bracket_link user parent_id take_profit_id stop_loss_id opts =
      invoke c "bracket_link"
        (address xdr user ∷ u64 xdr parent_id ∷ u64 xdr take_profit_id ∷ u64 xdr stop_loss_id ∷ [])
        opts

  unfoldable pub cancel_bracket_sibling : String → ℤ → ℤ → InvokeOptions → Call xdr.ScVal
  unfolding invoke
  cancel_bracket_sibling caller parent_id survivor_id opts =
      invoke c "cancel_bracket_sibling"
        (address xdr caller ∷ u64 xdr parent_id ∷ u64 xdr survivor_id ∷ []) opts

  unfoldable pub create_twap_plan :
      String → ℤ → ℤ → Bool → ℤ → ℤ → ℤ → ℤ → ℤ → InvokeOptions → Call xdr.ScVal
  unfolding invoke
  create_twap_plan user market_id total_size is_long leverage max_slippage_bps slices
        interval_ledgers expiry_ledger_offset opts =
      invoke c "create_twap_plan"
        (address xdr user
          ∷ u32 xdr market_id
          ∷ i128 xdr total_size
          ∷ bool xdr is_long
          ∷ u32 xdr leverage
          ∷ u32 xdr max_slippage_bps
          ∷ u32 xdr slices
          ∷ u32 xdr interval_ledgers
          ∷ u32 xdr expiry_ledger_offset
          ∷ [])
        opts

  unfoldable pub release_twap_slice : String → ℤ → InvokeOptions → Call xdr.ScVal
  unfolding invoke
  release_twap_slice caller plan_id opts =
      invoke c "release_twap_slice" (address xdr caller ∷ u64 xdr plan_id ∷ []) opts

  unfoldable pub create_iceberg_plan :
      String → ℤ → ℤ → ℤ → Bool → ℤ → ℤ → ℤ → ℤ → InvokeOptions → Call xdr.ScVal
  unfolding invoke
  create_iceberg_plan user market_id total_size display_size is_long leverage max_slippage_bps
        entry_price expiry_ledger_offset opts =
      invoke c "create_iceberg_plan"
        (address xdr user
          ∷ u32 xdr market_id
          ∷ i128 xdr total_size
          ∷ i128 xdr display_size
          ∷ bool xdr is_long
          ∷ u32 xdr leverage
          ∷ u32 xdr max_slippage_bps
          ∷ i128 xdr entry_price
          ∷ u32 xdr expiry_ledger_offset
          ∷ [])
        opts

  unfoldable pub release_iceberg_slice : String → ℤ → ℤ → InvokeOptions → Call xdr.ScVal
  unfolding invoke
  release_iceberg_slice caller plan_id filled_amount opts =
      invoke c "release_iceberg_slice"
        (address xdr caller ∷ u64 xdr plan_id ∷ i128 xdr filled_amount ∷ []) opts

  unfoldable pub get_bracket : ℤ → Read xdr.ScVal (Option BracketGroup)
  unfolding simulate_return
  get_bracket parent_id =
      simulate_return c "get_bracket" (u64 xdr parent_id ∷ []) (decode_bracket_group xdr)

  unfoldable pub get_twap_plan : ℤ → Read xdr.ScVal (Option TwapPlan)
  unfolding simulate_return
  get_twap_plan plan_id =
      simulate_return c "get_twap_plan" (u64 xdr plan_id ∷ []) (decode_twap_plan xdr)

  unfoldable pub get_iceberg_plan : ℤ → Read xdr.ScVal (Option IcebergPlan)
  unfolding simulate_return
  get_iceberg_plan plan_id =
      simulate_return c "get_iceberg_plan" (u64 xdr plan_id ∷ []) (decode_iceberg_plan xdr)

  unfoldable pub is_paused : Read xdr.ScVal Bool
  unfolding simulate_return
  is_paused = simulate_return c "is_paused" ([]) (λ v. some (to_boolean (raw xdr v)))

  unfoldable pub pause : InvokeOptions → Call xdr.ScVal
  unfolding invoke
  pause opts = invoke c "pause" ([]) opts

  unfoldable pub unpause : InvokeOptions → Call xdr.ScVal
  unfolding invoke
  unpause opts = invoke c "unpause" ([]) opts

  unfoldable pub set_slp_vault : String → InvokeOptions → Call xdr.ScVal
  unfolding invoke
  set_slp_vault slp_vault opts = invoke c "set_slp_vault" (address xdr slp_vault ∷ []) opts

  unfoldable pub get_slp_vault : Read xdr.ScVal (Option String)
  unfolding simulate_return
  get_slp_vault = simulate_return c "get_slp_vault" ([]) (decode_slp_vault xdr)
