-- ===== src/Sdk/Clob/Fits.antt =====
-- The calls of the calls of the CLOB against the interface of the contract (contracts/stellax-clob/src/lib.rs).
use Prim.Native.String.{String}
use stellax.Base.{ℕ, ◌≡◌, List, [], ◌∷◌, length}
use stellax.Base.Int.{ℤ}
use stellax.Sdk.Xdr.{Ty, ty, no_ty}
use stellax.Sdk.ScVal.Typed.{u64-Typed, bytes_n-Typed, address-Typed}
use stellax.Sdk.Client.{ContractClient, InvokeOptions, invoke, simulate_return}
use stellax.Sdk.Client.Conforms.{Abi, Conforms}
use stellax.Sdk.Clob.{
  get_order, get_nonce, get_config, version, place_order, cancel_order, settle_matched_orders,
  update_config, upgrade,
}
use stellax.Sdk.Clob.Orders.{LimitOrderParams}
use stellax.Sdk.Clob.Typed.{limit_order, encode_limit_order-Typed}

abbrev pub abi : Abi
abi =
    ("__constructor", ty Ty.address (ty Ty.address (ty Ty.address (ty Ty.address no_ty))))
    ∷ ("version", no_ty)
    ∷ ("upgrade", ty (Ty.bytes_n 32) no_ty)
    ∷ ("update_config", ty Ty.address (ty Ty.address (ty Ty.address no_ty)))
    ∷ ("place_order", ty limit_order no_ty)
    ∷ ("cancel_order", ty Ty.address (ty Ty.u64 no_ty))
    ∷ ("settle_matched_orders", ty Ty.address (ty Ty.u64 (ty Ty.u64 no_ty)))
    ∷ ("get_order", ty Ty.u64 no_ty)
    ∷ ("get_nonce", ty Ty.address no_ty)
    ∷ ("get_config", no_ty)
    ∷ ("order_canonical_hash", ty (Ty.udt "&LimitOrder") no_ty)
    ∷ []

-- Every call of the client, whatever its arguments, fits the interface of the contract: the method is one of the contract, there are as many arguments as parameters, and each argument that is encoded has the type of its parameter.
-- The hash of `upgrade` has 32 bytes.
pub clob-Conforms :
    (c : ContractClient) (order_id : ℤ) (trader : String) (order : LimitOrderParams)
    (opts : InvokeOptions) (caller : String) (buy_id : ℤ) (sell_id : ℤ) (perp_engine : String)
    (vault : String) (keeper : String) (new_wasm_hash : List ℕ)
    (is_hash : length new_wasm_hash ≡ 32)
    → Conforms c.xdr abi (get_order c order_id).call
      × Conforms c.xdr abi (get_nonce c trader).call
      × Conforms c.xdr abi (get_config c).call
      × Conforms c.xdr abi (version c).call
      × Conforms c.xdr abi (place_order c order opts)
      × Conforms c.xdr abi (cancel_order c caller order_id opts)
      × Conforms c.xdr abi (settle_matched_orders c caller buy_id sell_id opts)
      × Conforms c.xdr abi (update_config c perp_engine vault keeper opts)
      × Conforms c.xdr abi (upgrade c new_wasm_hash opts)
unfolding invoke simulate_return get_order get_nonce get_config version place_order cancel_order
    settle_matched_orders update_config upgrade
clob-Conforms c order_id trader order opts caller buy_id sell_id perp_engine vault keeper
      new_wasm_hash is_hash =
    (
      (u64-Typed c.xdr order_id, tt),
      (address-Typed c.xdr trader, tt),
      tt,
      tt,
      (encode_limit_order-Typed c order, tt),
      (address-Typed c.xdr caller, (u64-Typed c.xdr order_id, tt)),
      (address-Typed c.xdr caller, (u64-Typed c.xdr buy_id, (u64-Typed c.xdr sell_id, tt))),
      (
        address-Typed c.xdr perp_engine,
        (address-Typed c.xdr vault, (address-Typed c.xdr keeper, tt)),
      ),
      (bytes_n-Typed c.xdr 32 new_wasm_hash is_hash, tt),
    )
