-- ===== src/Sdk/Funding/Fits.antt =====
-- The calls of the calls of the funding contract against the interface of the contract (contracts/stellax-funding/src/lib.rs).
use stellax.Base.{ℕ, ◌≡◌, List, [], ◌∷◌, length}
use stellax.Base.Int.{ℤ}
use stellax.Sdk.Xdr.{Ty, ty, no_ty}
use stellax.Sdk.ScVal.Typed.{u32-Typed, u64-Typed, bytes_n-Typed}
use stellax.Sdk.Client.{ContractClient, InvokeOptions, invoke, simulate_return}
use stellax.Sdk.Client.Conforms.{Abi, Conforms}
use stellax.Sdk.Funding.{
  get_current_funding_rate, get_accumulated_funding, estimate_funding_payment, get_funding_velocity,
  version, update_funding, settle_funding_for_position, upgrade,
}

abbrev pub abi : Abi
abi =
    ("__constructor", ty Ty.address (ty Ty.address (ty Ty.address (ty Ty.i128 no_ty))))
    ∷ ("version", no_ty)
    ∷ ("update_funding", ty Ty.u32 no_ty)
    ∷ ("settle_funding", ty (Ty.udt "Position") no_ty)
    ∷ ("get_current_funding_rate", ty Ty.u32 no_ty)
    ∷ ("get_funding_velocity", ty Ty.u32 no_ty)
    ∷ ("get_accumulated_funding", ty Ty.u32 no_ty)
    ∷ ("estimate_funding_payment", ty Ty.u64 no_ty)
    ∷ ("update_config", ty Ty.address (ty Ty.address (ty Ty.i128 no_ty)))
    ∷ ("set_vault_config", ty Ty.address (ty Ty.address (ty Ty.address no_ty)))
    ∷ ("get_vault_config", no_ty)
    ∷ ("settle_funding_for_position", ty Ty.u64 no_ty)
    ∷ ("upgrade", ty (Ty.bytes_n 32) no_ty)
    ∷ []

-- Every call of the client, whatever its arguments, fits the interface of the contract: the method is one of the contract, there are as many arguments as parameters, and each argument that is encoded has the type of its parameter.
-- The hash of `upgrade` has 32 bytes.
pub funding-Conforms :
    (c : ContractClient) (market_id : ℤ) (position_id : ℤ) (opts : InvokeOptions)
    (new_wasm_hash : List ℕ) (is_hash : length new_wasm_hash ≡ 32)
    → Conforms c.xdr abi (get_current_funding_rate c market_id).call
      × Conforms c.xdr abi (get_accumulated_funding c market_id).call
      × Conforms c.xdr abi (estimate_funding_payment c position_id).call
      × Conforms c.xdr abi (get_funding_velocity c market_id).call
      × Conforms c.xdr abi (version c).call
      × Conforms c.xdr abi (update_funding c market_id opts)
      × Conforms c.xdr abi (settle_funding_for_position c position_id opts)
      × Conforms c.xdr abi (upgrade c new_wasm_hash opts)
unfolding invoke simulate_return get_current_funding_rate get_accumulated_funding
    estimate_funding_payment get_funding_velocity version update_funding settle_funding_for_position
    upgrade
funding-Conforms c market_id position_id opts new_wasm_hash is_hash = (
  (u32-Typed c.xdr market_id, tt),
  (u32-Typed c.xdr market_id, tt),
  (u64-Typed c.xdr position_id, tt),
  (u32-Typed c.xdr market_id, tt),
  tt,
  (u32-Typed c.xdr market_id, tt),
  (u64-Typed c.xdr position_id, tt),
  (bytes_n-Typed c.xdr 32 new_wasm_hash is_hash, tt),
)
