-- ===== src/Sdk/Clob.antt =====
-- The calls of the CLOB (packages/sdk/src/clients/clob.ts, `ClobClient`).
pub mod Orders
pub mod Typed
pub mod Reads
pub mod Fits
use Prim.Native.String.{String}
use stellax.Base.{ℕ, List, [], ◌∷◌}
use stellax.Base.Int.{ℤ}
use stellax.Sdk.Native.{Number}
use stellax.Sdk.ScVal.{u64, bytes_n, address, dec_bigint, dec_number}
use stellax.Sdk.Client.{ContractClient, InvokeOptions, Call, Read, invoke, simulate_return}
use stellax.Sdk.Clob.Orders.{
  LimitOrderParams, LimitOrder, ClobConfig, encode_limit_order, decode_limit_order,
  decode_clob_config,
}

module _ (c : ContractClient) where
  open c use {xdr}

  unfoldable pub get_order : ℤ → Read xdr.ScVal LimitOrder
  unfolding simulate_return
  get_order order_id =
      simulate_return c "get_order" (u64 xdr order_id ∷ []) (decode_limit_order xdr)

  unfoldable pub get_nonce : String → Read xdr.ScVal ℤ
  unfolding simulate_return
  get_nonce trader = simulate_return c "get_nonce" (address xdr trader ∷ []) (dec_bigint xdr)

  unfoldable pub get_config : Read xdr.ScVal ClobConfig
  unfolding simulate_return
  get_config = simulate_return c "get_config" ([]) (decode_clob_config xdr)

  unfoldable pub version : Read xdr.ScVal Number
  unfolding simulate_return
  version = simulate_return c "version" ([]) (dec_number xdr)

  unfoldable pub place_order : LimitOrderParams → InvokeOptions → Call xdr.ScVal
  unfolding invoke
  place_order order opts = invoke c "place_order" (encode_limit_order c order ∷ []) opts

  unfoldable pub cancel_order : String → ℤ → InvokeOptions → Call xdr.ScVal
  unfolding invoke
  cancel_order caller order_id opts =
      invoke c "cancel_order" (address xdr caller ∷ u64 xdr order_id ∷ []) opts

  unfoldable pub settle_matched_orders : String → ℤ → ℤ → InvokeOptions → Call xdr.ScVal
  unfolding invoke
  settle_matched_orders caller buy_id sell_id opts =
      invoke c "settle_matched_orders" (address xdr caller ∷ u64 xdr buy_id ∷ u64 xdr sell_id ∷ [])
        opts

  unfoldable pub update_config : String → String → String → InvokeOptions → Call xdr.ScVal
  unfolding invoke
  update_config perp_engine vault keeper opts =
      invoke c "update_config"
        (address xdr perp_engine ∷ address xdr vault ∷ address xdr keeper ∷ []) opts

  unfoldable pub upgrade : List ℕ → InvokeOptions → Call xdr.ScVal
  unfolding invoke
  upgrade new_wasm_hash opts = invoke c "upgrade" (bytes_n xdr new_wasm_hash ∷ []) opts
