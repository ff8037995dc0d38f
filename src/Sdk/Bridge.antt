-- ===== src/Sdk/Bridge.antt =====
-- The calls of the bridge (packages/sdk/src/clients/bridge.ts, `BridgeClient`).
pub mod Fits
use Prim.Native.String.{String}
use stellax.Base.{ℕ, Bool, Option, some, List, [], ◌∷◌}
use stellax.Base.Int.{ℤ}
use stellax.Sdk.Native.{◌>>=◌, Number, text, to_number, to_text, get, or_else, nullable_text}
use stellax.Sdk.Xdr.{Xdr}
use stellax.Sdk.ScVal.{i128, bytes_val, bytes_n, address, raw, dec_number, dec_bool}
use stellax.Sdk.Client.{ContractClient, InvokeOptions, Call, Read, invoke, simulate_return}

pub record BridgeConfig : Type 0 where
  pub admin : String
  pub gateway : String
  pub gas_service : String
  pub its : String
  pub vault : String
  pub treasury : String
  pub protocol_fee_bps : Number
  pub min_validators : ℕ

module _ (x : Xdr) where
  open x use {ScVal}

  unfoldable pub decode_bridge_config : Option ScVal → Option BridgeConfig
  unfolding raw
  decode_bridge_config v = do
    let o = raw x v
    admin ← to_text (get o "admin")
    gateway ← to_text (get o "gateway")
    gas_service ← to_text (get o "gas_service")
    its ← to_text (or_else (get o "its") (text ""))
    vault ← to_text (get o "vault")
    treasury ← to_text (get o "treasury")
    protocol_fee_bps ← to_number (get o "protocol_fee_bps")
    some (record {
      admin = admin;
      gateway = gateway;
      gas_service = gas_service;
      its = its;
      vault = vault;
      treasury = treasury;
      protocol_fee_bps = protocol_fee_bps;
      min_validators = 1;
    })

module _ (c : ContractClient) where
  open c use {xdr}

  unfoldable pub str_val : String → Option xdr.ScVal
  str_val s = some (xdr.scv_string s)

  unfoldable pub token_id_val : List ℕ → Option xdr.ScVal
  token_id_val b = some (xdr.scv_bytes b)

module _ (c : ContractClient) where
  open c use {xdr}

  unfoldable pub version : Read xdr.ScVal Number
  unfolding simulate_return
  version = simulate_return c "version" ([]) (dec_number xdr)

  unfoldable pub get_config : Read xdr.ScVal BridgeConfig
  unfolding simulate_return
  get_config = simulate_return c "get_config" ([]) (decode_bridge_config xdr)

  unfoldable pub is_trusted_source : String → String → Read xdr.ScVal Bool
  unfolding simulate_return
  is_trusted_source chain_name remote_address =
      simulate_return c "is_trusted_source" (str_val c chain_name ∷ str_val c remote_address ∷ [])
        (dec_bool xdr)

  unfoldable pub get_local_token : List ℕ → Read xdr.ScVal (Option String)
  unfolding simulate_return
  get_local_token token_id =
      simulate_return c "get_local_token" (token_id_val c token_id ∷ [])
        (λ v. nullable_text (raw xdr v))

  unfoldable pub set_trusted_source : String → String → InvokeOptions → Call xdr.ScVal
  unfolding invoke
  set_trusted_source chain_name remote_address opts =
      invoke c "set_trusted_source" (str_val c chain_name ∷ str_val c remote_address ∷ []) opts

  unfoldable pub remove_trusted_source : String → InvokeOptions → Call xdr.ScVal
  unfolding invoke
  remove_trusted_source chain_name opts =
      invoke c "remove_trusted_source" (str_val c chain_name ∷ []) opts

  unfoldable pub register_token : List ℕ → String → InvokeOptions → Call xdr.ScVal
  unfolding invoke
  register_token token_id local_token opts =
      invoke c "register_token" (token_id_val c token_id ∷ address xdr local_token ∷ []) opts

  unfoldable pub send_message :
      String → String → String → List ℕ → String → ℤ → InvokeOptions → Call xdr.ScVal
  unfolding invoke
  send_message caller destination_chain destination_address payload gas_token gas_amount opts =
      invoke c "send_message"
        (address xdr caller
          ∷ str_val c destination_chain
          ∷ str_val c destination_address
          ∷ bytes_val xdr payload
          ∷ address xdr gas_token
          ∷ i128 xdr gas_amount
          ∷ [])
        opts

  unfoldable pub bridge_collateral_in :
      String → String → List ℕ → ℤ → InvokeOptions → Call xdr.ScVal
  unfolding invoke
  bridge_collateral_in caller user token_id amount opts =
      invoke c "bridge_collateral_in"
        (address xdr caller ∷ address xdr user ∷ token_id_val c token_id ∷ i128 xdr amount ∷ [])
        opts

  unfoldable pub upgrade : List ℕ → InvokeOptions → Call xdr.ScVal
  unfolding invoke
  upgrade new_wasm_hash opts = invoke c "upgrade" (bytes_n xdr new_wasm_hash ∷ []) opts
