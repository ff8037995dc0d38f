-- ===== src/Sdk/Bridge/Fits.antt =====
-- The calls of the calls of the bridge against the interface of the contract (contracts/stellax-bridge/src/lib.rs).
use Prim.Native.String.{String}
use stellax.Base.{subst, some_eq, ℕ, ◌≡◌, List, [], ◌∷◌, length}
use stellax.Base.Int.{ℤ}
use stellax.Sdk.Xdr.{Ty, ty, no_ty}
use stellax.Sdk.ScVal.Typed.{i128-Typed, bytes-Typed, bytes_n-Typed, address-Typed, Arg}
use stellax.Sdk.Client.{ContractClient, InvokeOptions, invoke, simulate_return}
use stellax.Sdk.Client.Conforms.{Abi, Conforms}
use stellax.Sdk.Bridge.{
  version, get_config, is_trusted_source, get_local_token, set_trusted_source,
  remove_trusted_source, register_token, send_message, bridge_collateral_in, upgrade,
}
use stellax.Sdk.Bridge.{str_val, token_id_val}

str_val-Typed : (c : ContractClient) (s : String) → Arg c.xdr (str_val c s) Ty.string
unfolding str_val
str_val-Typed c s v e = subst (λ w. c.xdr.HasType w Ty.string) (some_eq e) (c.xdr.string_typed s)

token_id_val-Typed :
    (c : ContractClient) (b : List ℕ) → length b ≡ 32 → Arg c.xdr (token_id_val c b) (Ty.bytes_n 32)
unfolding token_id_val
token_id_val-Typed c b h v e =
    subst (λ w. c.xdr.HasType w (Ty.bytes_n 32)) (some_eq e)
      (subst (λ k. c.xdr.HasType (c.xdr.scv_bytes b) (Ty.bytes_n k)) h (c.xdr.bytes_n_typed b))

abbrev pub abi : Abi
abi =
    ("version", no_ty)
    ∷ ("initialize", ty (Ty.udt "BridgeConfig") no_ty)
    ∷ (
      "update_config",
      ty Ty.address
          (ty Ty.address (ty Ty.address (ty Ty.address (ty Ty.address (ty Ty.u32 no_ty))))),
    )
    ∷ ("set_trusted_source", ty Ty.string (ty Ty.string no_ty))
    ∷ ("remove_trusted_source", ty Ty.string no_ty)
    ∷ ("is_trusted_source", ty Ty.string (ty Ty.string no_ty))
    ∷ ("register_token", ty (Ty.bytes_n 32) (ty Ty.address no_ty))
    ∷ ("get_local_token", ty (Ty.bytes_n 32) no_ty)
    ∷ ("execute", ty Ty.string (ty Ty.string (ty Ty.string (ty Ty.bytes no_ty))))
    ∷ (
      "send_message",
      ty Ty.address (ty Ty.string (ty Ty.string (ty Ty.bytes (ty Ty.address (ty Ty.i128 no_ty))))),
    )
    ∷ (
      "bridge_collateral_in",
      ty Ty.address (ty Ty.address (ty (Ty.bytes_n 32) (ty Ty.i128 no_ty))),
    )
    ∷ (
      "bridge_collateral_out",
      ty Ty.address (ty Ty.string (ty (Ty.bytes_n 32) (ty Ty.i128 (ty Ty.i128 no_ty)))),
    )
    ∷ ("encode_deposit_payload", ty Ty.address (ty Ty.address (ty Ty.i128 no_ty)))
    ∷ ("encode_withdraw_payload", ty Ty.address (ty Ty.address (ty Ty.i128 no_ty)))
    ∷ ("get_config", no_ty)
    ∷ ("gateway", no_ty)
    ∷ ("upgrade", ty (Ty.bytes_n 32) no_ty)
    ∷ []

-- Every call of the client, whatever its arguments, fits the interface of the contract: the method is one of the contract, there are as many arguments as parameters, and each argument that is encoded has the type of its parameter.
-- The hash of `upgrade` and the id of a token have 32 bytes.
pub bridge-Conforms :
    (c : ContractClient) (chain_name : String) (remote_address : String) (token_id : List ℕ)
    (opts : InvokeOptions) (local_token : String) (caller : String) (destination_chain : String)
    (destination_address : String) (payload : List ℕ) (gas_token : String) (gas_amount : ℤ)
    (user : String) (amount : ℤ) (new_wasm_hash : List ℕ) (is_hash : length new_wasm_hash ≡ 32)
    (is_token : length token_id ≡ 32)
    → Conforms c.xdr abi (version c).call
      × Conforms c.xdr abi (get_config c).call
      × Conforms c.xdr abi (is_trusted_source c chain_name remote_address).call
      × Conforms c.xdr abi (get_local_token c token_id).call
      × Conforms c.xdr abi (set_trusted_source c chain_name remote_address opts)
      × Conforms c.xdr abi (remove_trusted_source c chain_name opts)
      × Conforms c.xdr abi (register_token c token_id local_token opts)
      × Conforms c.xdr abi (
          send_message c caller destination_chain destination_address payload gas_token gas_amount
            opts)
      × Conforms c.xdr abi (bridge_collateral_in c caller user token_id amount opts)
      × Conforms c.xdr abi (upgrade c new_wasm_hash opts)
unfolding invoke simulate_return version get_config is_trusted_source get_local_token
    set_trusted_source remove_trusted_source register_token send_message bridge_collateral_in
    upgrade
bridge-Conforms c chain_name remote_address token_id opts local_token caller destination_chain
      destination_address payload gas_token gas_amount user amount new_wasm_hash is_hash is_token =
    (
      tt,
      tt,
      (str_val-Typed c chain_name, (str_val-Typed c remote_address, tt)),
      (token_id_val-Typed c token_id is_token, tt),
      (str_val-Typed c chain_name, (str_val-Typed c remote_address, tt)),
      (str_val-Typed c chain_name, tt),
      (token_id_val-Typed c token_id is_token, (address-Typed c.xdr local_token, tt)),
      (
        address-Typed c.xdr caller,
        (
          str_val-Typed c destination_chain,
          (
            str_val-Typed c destination_address,
            (
              bytes-Typed c.xdr payload,
              (address-Typed c.xdr gas_token, (i128-Typed c.xdr gas_amount, tt)),
            ),
          ),
        ),
      ),
      (
        address-Typed c.xdr caller,
        (
          address-Typed c.xdr user,
          (token_id_val-Typed c token_id is_token, (i128-Typed c.xdr amount, tt)),
        ),
      ),
      (bytes_n-Typed c.xdr 32 new_wasm_hash is_hash, tt),
    )
