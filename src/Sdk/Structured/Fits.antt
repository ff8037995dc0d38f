-- ===== src/Sdk/Structured/Fits.antt =====
-- The calls of the calls of the structured vault against the interface of the contract (contracts/stellax-structured/src/lib.rs).
use Prim.Native.String.{String}
use stellax.Base.{ℕ, ◌≡◌, List, [], ◌∷◌, length}
use stellax.Base.Int.{ℤ}
use stellax.Sdk.Xdr.{Ty, ty, no_ty}
use stellax.Sdk.ScVal.Typed.{u64-Typed, i128-Typed, symbol-Typed, bytes_n-Typed, address-Typed}
use stellax.Sdk.Client.{ContractClient, InvokeOptions, invoke, simulate_return}
use stellax.Sdk.Client.Conforms.{Abi, Conforms}
use stellax.Sdk.Structured.{
  get_epoch, balance, total_assets, total_shares, version, deposit, withdraw, roll_epoch,
  set_epoch_duration, set_option_asset, upgrade,
}

abbrev pub abi : Abi
abi =
    ("version", no_ty)
    ∷ ("initialize", ty (Ty.udt "StructuredConfig") no_ty)
    ∷ ("deposit", ty Ty.address (ty Ty.i128 no_ty))
    ∷ ("withdraw", ty Ty.address (ty Ty.i128 no_ty))
    ∷ ("roll_epoch", no_ty)
    ∷ ("name", no_ty)
    ∷ ("symbol", no_ty)
    ∷ ("decimals", no_ty)
    ∷ ("balance", ty Ty.address no_ty)
    ∷ ("transfer", ty Ty.address (ty Ty.address (ty Ty.i128 no_ty)))
    ∷ ("approve", ty Ty.address (ty Ty.address (ty Ty.i128 (ty Ty.u32 no_ty))))
    ∷ ("allowance", ty Ty.address (ty Ty.address no_ty))
    ∷ ("transfer_from", ty Ty.address (ty Ty.address (ty Ty.address (ty Ty.i128 no_ty))))
    ∷ ("get_epoch", no_ty)
    ∷ ("get_config", no_ty)
    ∷ ("total_shares", no_ty)
    ∷ ("total_assets", no_ty)
    ∷ ("nav_per_share", no_ty)
    ∷ ("process_pending_deposit", ty Ty.address no_ty)
    ∷ ("process_pending_withdrawal", ty Ty.address no_ty)
    ∷ ("upgrade", ty (Ty.bytes_n 32) no_ty)
    ∷ ("set_option_asset", ty Ty.symbol no_ty)
    ∷ ("set_epoch_duration", ty Ty.u64 no_ty)
    ∷ []

-- Every call of the client, whatever its arguments, fits the interface of the contract: the method is one of the contract, there are as many arguments as parameters, and each argument that is encoded has the type of its parameter.
-- The hash of `upgrade` has 32 bytes.
pub structured-Conforms :
    (c : ContractClient) (user : String) (amount : ℤ) (opts : InvokeOptions) (shares : ℤ) (secs : ℤ)
    (symbol : String) (new_wasm_hash : List ℕ) (is_hash : length new_wasm_hash ≡ 32)
    → Conforms c.xdr abi (get_epoch c).call
      × Conforms c.xdr abi (balance c user).call
      × Conforms c.xdr abi (total_assets c).call
      × Conforms c.xdr abi (total_shares c).call
      × Conforms c.xdr abi (version c).call
      × Conforms c.xdr abi (deposit c user amount opts)
      × Conforms c.xdr abi (withdraw c user shares opts)
      × Conforms c.xdr abi (roll_epoch c opts)
      × Conforms c.xdr abi (set_epoch_duration c secs opts)
      × Conforms c.xdr abi (set_option_asset c symbol opts)
      × Conforms c.xdr abi (upgrade c new_wasm_hash opts)
unfolding invoke simulate_return get_epoch balance total_assets total_shares version deposit
    withdraw roll_epoch set_epoch_duration set_option_asset upgrade
structured-Conforms c user amount opts shares secs symbol new_wasm_hash is_hash = (
  tt,
  (address-Typed c.xdr user, tt),
  tt,
  tt,
  tt,
  (address-Typed c.xdr user, (i128-Typed c.xdr amount, tt)),
  (address-Typed c.xdr user, (i128-Typed c.xdr shares, tt)),
  tt,
  (u64-Typed c.xdr secs, tt),
  (symbol-Typed c.xdr symbol, tt),
  (bytes_n-Typed c.xdr 32 new_wasm_hash is_hash, tt),
)
