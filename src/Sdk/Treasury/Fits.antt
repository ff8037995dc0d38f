-- ===== src/Sdk/Treasury/Fits.antt =====
-- The calls of the calls of the treasury against the interface of the contract (contracts/stellax-treasury/src/lib.rs).
use Prim.Native.String.{String}
use stellax.Base.{ℕ, ◌≡◌, List, [], ◌∷◌, length}
use stellax.Base.Int.{ℤ}
use stellax.Sdk.Xdr.{Ty, ty, no_ty}
use stellax.Sdk.ScVal.Typed.{u32-Typed, i128-Typed, bytes_n-Typed, address-Typed}
use stellax.Sdk.Client.{ContractClient, InvokeOptions, invoke, simulate_return}
use stellax.Sdk.Client.Conforms.{Abi, Conforms}
use stellax.Sdk.Treasury.{
  version, get_pending_fees, get_treasury_balance, get_staker_balance, get_insurance_sent,
  get_risk_contract, get_insurance_target, add_authorized_source, collect_fee, distribute,
  withdraw_treasury, update_split, upgrade, set_risk_contract, set_insurance_target,
  collect_fee_with_trader, get_referral_paid, get_referrals_contract, get_vault_contract,
  set_referrals_contract, set_vault_contract, set_lending_pool, get_lending_pool,
  get_lending_deposited, deposit_to_lending, withdraw_from_lending,
}

abbrev pub abi : Abi
abi =
    ("initialize", ty Ty.address (ty Ty.address (ty Ty.i128 no_ty)))
    ∷ ("add_authorized_source", ty Ty.address no_ty)
    ∷ ("update_split", ty Ty.u32 (ty Ty.u32 (ty Ty.u32 no_ty)))
    ∷ ("withdraw_treasury", ty Ty.address (ty Ty.address (ty Ty.i128 no_ty)))
    ∷ ("set_staking", ty Ty.address no_ty)
    ∷ ("get_staking", no_ty)
    ∷ ("flush_staker_rewards", ty Ty.address no_ty)
    ∷ ("collect_fee", ty Ty.address (ty Ty.address (ty Ty.i128 no_ty)))
    ∷ (
      "collect_fee_with_trader",
      ty Ty.address (ty Ty.address (ty Ty.address (ty Ty.i128 (ty Ty.i128 no_ty)))),
    )
    ∷ ("distribute", ty Ty.address no_ty)
    ∷ ("set_risk_contract", ty Ty.address no_ty)
    ∷ ("get_risk_contract", no_ty)
    ∷ ("set_insurance_target", ty Ty.i128 (ty Ty.i128 no_ty))
    ∷ ("get_insurance_target", no_ty)
    ∷ ("set_referrals_contract", ty Ty.address no_ty)
    ∷ ("get_referrals_contract", no_ty)
    ∷ ("set_vault_contract", ty Ty.address no_ty)
    ∷ ("get_vault_contract", no_ty)
    ∷ ("get_referral_paid", ty Ty.address no_ty)
    ∷ ("get_pending_fees", ty Ty.address no_ty)
    ∷ ("get_treasury_balance", ty Ty.address no_ty)
    ∷ ("get_staker_balance", ty Ty.address no_ty)
    ∷ ("get_insurance_sent", ty Ty.address no_ty)
    ∷ ("set_lending_pool", ty Ty.address no_ty)
    ∷ ("get_lending_pool", no_ty)
    ∷ ("get_lending_deposited", ty Ty.address no_ty)
    ∷ ("deposit_to_lending", ty Ty.address (ty Ty.i128 no_ty))
    ∷ ("withdraw_from_lending", ty Ty.address (ty Ty.i128 no_ty))
    ∷ ("upgrade", ty (Ty.bytes_n 32) no_ty)
    ∷ ("version", no_ty)
    ∷ []

-- Every call of the client, whatever its arguments, fits the interface of the contract: the method is one of the contract, there are as many arguments as parameters, and each argument that is encoded has the type of its parameter.
-- The hash of `upgrade` has 32 bytes.
pub treasury-Conforms :
    (c : ContractClient) (token : String) (source : String) (opts : InvokeOptions) (amount : ℤ)
    (destination : String) (insurance_bps : ℤ) (treasury_bps : ℤ) (staker_bps : ℤ)
    (new_wasm_hash : List ℕ) (risk : String) (soft_cap : ℤ) (hard_cap : ℤ) (trader : String)
    (notional : ℤ) (referrals : String) (vault : String) (pool : String)
    (is_hash : length new_wasm_hash ≡ 32)
    → Conforms c.xdr abi (version c).call
      × Conforms c.xdr abi (get_pending_fees c token).call
      × Conforms c.xdr abi (get_treasury_balance c token).call
      × Conforms c.xdr abi (get_staker_balance c token).call
      × Conforms c.xdr abi (get_insurance_sent c token).call
      × Conforms c.xdr abi (get_risk_contract c).call
      × Conforms c.xdr abi (get_insurance_target c).call
      × Conforms c.xdr abi (add_authorized_source c source opts)
      × Conforms c.xdr abi (collect_fee c source token amount opts)
      × Conforms c.xdr abi (distribute c token opts)
      × Conforms c.xdr abi (withdraw_treasury c destination token amount opts)
      × Conforms c.xdr abi (update_split c insurance_bps treasury_bps staker_bps opts)
      × Conforms c.xdr abi (upgrade c new_wasm_hash opts)
      × Conforms c.xdr abi (set_risk_contract c risk opts)
      × Conforms c.xdr abi (set_insurance_target c soft_cap hard_cap opts)
      × Conforms c.xdr abi (collect_fee_with_trader c source token trader notional amount opts)
      × Conforms c.xdr abi (get_referral_paid c token).call
      × Conforms c.xdr abi (get_referrals_contract c).call
      × Conforms c.xdr abi (get_vault_contract c).call
      × Conforms c.xdr abi (set_referrals_contract c referrals opts)
      × Conforms c.xdr abi (set_vault_contract c vault opts)
      × Conforms c.xdr abi (set_lending_pool c pool opts)
      × Conforms c.xdr abi (get_lending_pool c).call
      × Conforms c.xdr abi (get_lending_deposited c token).call
      × Conforms c.xdr abi (deposit_to_lending c token amount opts)
      × Conforms c.xdr abi (withdraw_from_lending c token amount opts)
unfolding invoke simulate_return version get_pending_fees get_treasury_balance get_staker_balance
    get_insurance_sent get_risk_contract get_insurance_target add_authorized_source collect_fee
    distribute withdraw_treasury update_split upgrade set_risk_contract set_insurance_target
    collect_fee_with_trader get_referral_paid get_referrals_contract get_vault_contract
    set_referrals_contract set_vault_contract set_lending_pool get_lending_pool
    get_lending_deposited deposit_to_lending withdraw_from_lending
treasury-Conforms c token source opts amount destination insurance_bps treasury_bps staker_bps
      new_wasm_hash risk soft_cap hard_cap trader notional referrals vault pool is_hash =
    (
      tt,
      (address-Typed c.xdr token, tt),
      (address-Typed c.xdr token, tt),
      (address-Typed c.xdr token, tt),
      (address-Typed c.xdr token, tt),
      tt,
      tt,
      (address-Typed c.xdr source, tt),
      (address-Typed c.xdr source, (address-Typed c.xdr token, (i128-Typed c.xdr amount, tt))),
      (address-Typed c.xdr token, tt),
      (address-Typed c.xdr destination, (address-Typed c.xdr token, (i128-Typed c.xdr amount, tt))),
      (
        u32-Typed c.xdr insurance_bps,
        (u32-Typed c.xdr treasury_bps, (u32-Typed c.xdr staker_bps, tt)),
      ),
      (bytes_n-Typed c.xdr 32 new_wasm_hash is_hash, tt),
      (address-Typed c.xdr risk, tt),
      (i128-Typed c.xdr soft_cap, (i128-Typed c.xdr hard_cap, tt)),
      (
        address-Typed c.xdr source,
        (
          address-Typed c.xdr token,
          (address-Typed c.xdr trader, (i128-Typed c.xdr notional, (i128-Typed c.xdr amount, tt))),
        ),
      ),
      (address-Typed c.xdr token, tt),
      tt,
      tt,
      (address-Typed c.xdr referrals, tt),
      (address-Typed c.xdr vault, tt),
      (address-Typed c.xdr pool, tt),
      tt,
      (address-Typed c.xdr token, tt),
      (address-Typed c.xdr token, (i128-Typed c.xdr amount, tt)),
      (address-Typed c.xdr token, (i128-Typed c.xdr amount, tt)),
    )
