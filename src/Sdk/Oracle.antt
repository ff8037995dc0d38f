-- ===== src/Sdk/Oracle.antt =====
-- The calls of the oracle (packages/sdk/src/clients/oracle.ts, `OracleClient`).
pub mod Admin
pub mod Fits
use Prim.Native.String.{String}
use stellax.Base.{ℕ, Option, none, some, List, [], ◌∷◌, map, if◌then◌else◌, length, ◌==◌}
use stellax.Base.Int.{ℤ}
use stellax.Sdk.Native.{Number, bytes}
use stellax.Sdk.ScVal.{
  u32, u64, i128, symbol as enc_symbol, bytes_val, bytes_n, address, vec, dec_bigint, dec_number,
  dec_vec,
}
use stellax.Sdk.Client.{ContractClient, InvokeOptions, Call, Read, invoke, simulate_return}
use stellax.Sdk.ScVal.Types.{PriceData}
use stellax.Sdk.ScVal.Structs.{price_data}

module _ (c : ContractClient) where
  open c use {xdr}

  unfoldable pub get_price : String → Read xdr.ScVal PriceData
  unfolding simulate_return
  get_price feed_id = simulate_return c "get_price" (enc_symbol xdr feed_id ∷ []) (price_data xdr)

  unfoldable pub get_prices : List String → Read xdr.ScVal (List PriceData)
  unfolding simulate_return
  get_prices feed_ids =
      simulate_return c "get_prices" (vec xdr (map (enc_symbol xdr) feed_ids) ∷ [])
        (λ v. dec_vec xdr v (λ i. price_data xdr (some i)))

  unfoldable pub version : Read xdr.ScVal Number
  unfolding simulate_return
  version = simulate_return c "version" ([]) (dec_number xdr)

  unfoldable pub write_prices : List ℕ → InvokeOptions → Call xdr.ScVal
  unfolding invoke
  write_prices payload opts = invoke c "write_prices" (bytes_val xdr payload ∷ []) opts

  unfoldable pub admin_push_price : String → ℤ → ℤ → InvokeOptions → Call xdr.ScVal
  unfolding invoke
  admin_push_price feed_id price18 package_timestamp_ms opts =
      invoke c "admin_push_price"
        (enc_symbol xdr feed_id ∷ i128 xdr price18 ∷ u64 xdr package_timestamp_ms ∷ []) opts

  unfoldable pub update_config :
      List (List ℕ) → ℤ → ℤ → List String → InvokeOptions → Call xdr.ScVal
  unfolding invoke
  update_config signers threshold staleness_ms feed_ids opts =
      invoke c "update_config"
        (vec xdr (map (bytes_val xdr) signers)
          ∷ u32 xdr threshold
          ∷ u64 xdr staleness_ms
          ∷ vec xdr (map (enc_symbol xdr) feed_ids)
          ∷ [])
        opts

  unfoldable pub set_admin : String → InvokeOptions → Call xdr.ScVal
  unfolding invoke
  set_admin new_admin opts = invoke c "set_admin" (address xdr new_admin ∷ []) opts

  unfoldable pub upgrade : List ℕ → InvokeOptions → Call xdr.ScVal
  unfolding invoke
  upgrade new_wasm_hash opts = invoke c "upgrade" (bytes_n xdr new_wasm_hash ∷ []) opts

  unfoldable pub set_symbol_staleness : String → ℤ → InvokeOptions → Call xdr.ScVal
  unfolding invoke
  set_symbol_staleness feed_id max_age_ms opts =
      invoke c "set_symbol_staleness" (enc_symbol xdr feed_id ∷ u64 xdr max_age_ms ∷ []) opts

  unfoldable pub clear_symbol_staleness : String → InvokeOptions → Call xdr.ScVal
  unfolding invoke
  clear_symbol_staleness feed_id opts =
      invoke c "clear_symbol_staleness" (enc_symbol xdr feed_id ∷ []) opts

  unfoldable pub get_symbol_staleness : String → Read xdr.ScVal ℤ
  unfolding simulate_return
  get_symbol_staleness feed_id =
      simulate_return c "get_symbol_staleness" (enc_symbol xdr feed_id ∷ []) (dec_bigint xdr)

  unfoldable pub set_pyth_config : String → ℤ → InvokeOptions → Call xdr.ScVal
  unfolding invoke
  set_pyth_config pyth_contract max_age_ms opts =
      invoke c "set_pyth_config" (address xdr pyth_contract ∷ u64 xdr max_age_ms ∷ []) opts

  unfoldable pub remove_pyth_feed_id : String → InvokeOptions → Call xdr.ScVal
  unfolding invoke
  remove_pyth_feed_id feed_id opts =
      invoke c "remove_pyth_feed_id" (enc_symbol xdr feed_id ∷ []) opts

  unfoldable pub submit_pyth_update : List ℕ → List String → InvokeOptions → Call xdr.ScVal
  unfolding invoke
  submit_pyth_update update_data feed_ids opts =
      invoke c "submit_pyth_update"
        (bytes_val xdr update_data ∷ vec xdr (map (enc_symbol xdr) feed_ids) ∷ []) opts

  -- a feed id of Pyth that has not 32 bytes throws before any call
  unfoldable pub set_pyth_feed_id : String → List ℕ → InvokeOptions → Option (Call xdr.ScVal)
  unfolding invoke
  set_pyth_feed_id feed_id pyth_feed_id_bytes32 opts =
      if length pyth_feed_id_bytes32 == 32
      then some (
          invoke c "set_pyth_feed_id"
            (enc_symbol xdr feed_id ∷ bytes_n xdr pyth_feed_id_bytes32 ∷ []) opts)
      else none
