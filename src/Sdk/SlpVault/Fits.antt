-- ===== src/Sdk/SlpVault/Fits.antt =====
-- The calls of the calls of the SLP vault against the interface of the contract (contracts/stellax-slp-vault/src/lib.rs).
use Prim.Native.String.{String}
use stellax.Base.{ℕ, ◌≡◌, List, [], ◌∷◌, length}
use stellax.Base.Int.{ℤ}
use stellax.Sdk.Xdr.{Ty, ty, no_ty}
use stellax.Sdk.ScVal.Typed.{u32-Typed, u64-Typed, i128-Typed, bytes_n-Typed, address-Typed}
use stellax.Sdk.Client.{ContractClient, InvokeOptions, invoke, simulate_return}
use stellax.Sdk.Client.Conforms.{Abi, Conforms}
use stellax.Sdk.SlpVault.{
  total_shares, total_assets, nav_per_share, share_balance, unlock_at, get_config,
  get_authorized_callers, version, deposit, withdraw, seed, sweep_fees, credit_pnl, draw_pnl,
  record_loss, admin_credit_assets, add_authorized_caller, remove_authorized_caller,
  set_cooldown_secs, set_skew_cap_bps, set_max_vault_cap, upgrade,
}

abbrev pub abi : Abi
abi =
    ("version", no_ty)
    ∷ ("initialize", ty (Ty.udt "SlpConfig") no_ty)
    ∷ ("deposit", ty Ty.address (ty Ty.i128 no_ty))
    ∷ ("seed", ty Ty.i128 no_ty)
    ∷ ("withdraw", ty Ty.address (ty Ty.i128 no_ty))
    ∷ ("sweep_fees", ty Ty.i128 no_ty)
    ∷ ("credit_pnl", ty Ty.address (ty Ty.i128 no_ty))
    ∷ ("draw_pnl", ty Ty.address (ty Ty.address (ty Ty.i128 no_ty)))
    ∷ ("record_loss", ty Ty.address (ty Ty.i128 no_ty))
    ∷ ("admin_credit_assets", ty Ty.i128 no_ty)
    ∷ ("add_authorized_caller", ty Ty.address no_ty)
    ∷ ("remove_authorized_caller", ty Ty.address no_ty)
    ∷ ("get_authorized_callers", no_ty)
    ∷ ("set_cooldown_secs", ty Ty.u64 no_ty)
    ∷ ("set_skew_cap_bps", ty Ty.u32 no_ty)
    ∷ ("set_max_vault_cap", ty Ty.i128 no_ty)
    ∷ ("upgrade", ty (Ty.bytes_n 32) no_ty)
    ∷ ("get_config", no_ty)
    ∷ ("total_shares", no_ty)
    ∷ ("total_assets", no_ty)
    ∷ ("nav_per_share", no_ty)
    ∷ ("unlock_at", ty Ty.address no_ty)
    ∷ ("name", no_ty)
    ∷ ("symbol", no_ty)
    ∷ ("decimals", no_ty)
    ∷ ("balance", ty Ty.address no_ty)
    ∷ ("transfer", ty Ty.address (ty Ty.address (ty Ty.i128 no_ty)))
    ∷ ("approve", ty Ty.address (ty Ty.address (ty Ty.i128 (ty Ty.u32 no_ty))))
    ∷ ("allowance", ty Ty.address (ty Ty.address no_ty))
    ∷ ("transfer_from", ty Ty.address (ty Ty.address (ty Ty.address (ty Ty.i128 no_ty))))
    ∷ []

-- Every call of the client, whatever its arguments, fits the interface of the contract: the method is one of the contract, there are as many arguments as parameters, and each argument that is encoded has the type of its parameter.
-- The hash of `upgrade` has 32 bytes.
pub slp_vault-Conforms :
    (c : ContractClient) (user : String) (amount_native : ℤ) (opts : InvokeOptions) (shares : ℤ)
    (caller : String) (amount : ℤ) (recipient : String) (new_caller : String) (old_caller : String)
    (secs : ℤ) (bps : ℤ) (cap : ℤ) (new_wasm_hash : List ℕ) (is_hash : length new_wasm_hash ≡ 32)
    → Conforms c.xdr abi (total_shares c).call
      × Conforms c.xdr abi (total_assets c).call
      × Conforms c.xdr abi (nav_per_share c).call
      × Conforms c.xdr abi (share_balance c user).call
      × Conforms c.xdr abi (unlock_at c user).call
      × Conforms c.xdr abi (get_config c).call
      × Conforms c.xdr abi (get_authorized_callers c).call
      × Conforms c.xdr abi (version c).call
      × Conforms c.xdr abi (deposit c user amount_native opts)
      × Conforms c.xdr abi (withdraw c user shares opts)
      × Conforms c.xdr abi (seed c amount_native opts)
      × Conforms c.xdr abi (sweep_fees c amount_native opts)
      × Conforms c.xdr abi (credit_pnl c caller amount opts)
      × Conforms c.xdr abi (draw_pnl c caller recipient amount opts)
      × Conforms c.xdr abi (record_loss c caller amount opts)
      × Conforms c.xdr abi (admin_credit_assets c amount opts)
      × Conforms c.xdr abi (add_authorized_caller c new_caller opts)
      × Conforms c.xdr abi (remove_authorized_caller c old_caller opts)
      × Conforms c.xdr abi (set_cooldown_secs c secs opts)
      × Conforms c.xdr abi (set_skew_cap_bps c bps opts)
      × Conforms c.xdr abi (set_max_vault_cap c cap opts)
      × Conforms c.xdr abi (upgrade c new_wasm_hash opts)
unfolding invoke simulate_return total_shares total_assets nav_per_share share_balance unlock_at
    get_config get_authorized_callers version deposit withdraw seed sweep_fees credit_pnl draw_pnl
    record_loss admin_credit_assets add_authorized_caller remove_authorized_caller set_cooldown_secs
    set_skew_cap_bps set_max_vault_cap upgrade
slp_vault-Conforms c user amount_native opts shares caller amount recipient new_caller old_caller
      secs bps cap new_wasm_hash is_hash =
    (
      tt,
      tt,
      tt,
      (address-Typed c.xdr user, tt),
      (address-Typed c.xdr user, tt),
      tt,
      tt,
      tt,
      (address-Typed c.xdr user, (i128-Typed c.xdr amount_native, tt)),
      (address-Typed c.xdr user, (i128-Typed c.xdr shares, tt)),
      (i128-Typed c.xdr amount_native, tt),
      (i128-Typed c.xdr amount_native, tt),
      (address-Typed c.xdr caller, (i128-Typed c.xdr amount, tt)),
      (address-Typed c.xdr caller, (address-Typed c.xdr recipient, (i128-Typed c.xdr amount, tt))),
      (address-Typed c.xdr caller, (i128-Typed c.xdr amount, tt)),
      (i128-Typed c.xdr amount, tt),
      (address-Typed c.xdr new_caller, tt),
      (address-Typed c.xdr old_caller, tt),
      (u64-Typed c.xdr secs, tt),
      (u32-Typed c.xdr bps, tt),
      (i128-Typed c.xdr cap, tt),
      (bytes_n-Typed c.xdr 32 new_wasm_hash is_hash, tt),
    )
