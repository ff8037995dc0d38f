-- ===== src/Sdk/Treasury.antt =====
-- The calls of the treasury (packages/sdk/src/clients/treasury.ts, `TreasuryClient`).
pub mod Fits
use Prim.Native.String.{String}
use stellax.Base.{ℕ, Option, none, some, List, [], ◌∷◌}
use stellax.Base.Int.{ℤ}
use stellax.Sdk.Native.{◌>>=◌, Native, Number, undefined, null, big_int, get, nullable_text}
use stellax.Sdk.ScVal.{u32, i128, bytes_n, address, raw, dec_bigint, dec_number}
use stellax.Sdk.Client.{ContractClient, InvokeOptions, Call, Read, invoke, simulate_return}

pub record InsuranceTarget : Type 0 where
  pub soft_cap : ℤ
  pub hard_cap : ℤ

abbrev pub insurance_target : Native → Option (Option InsuranceTarget)
insurance_target undefined = some none
insurance_target null = some none
insurance_target o = do
  soft_cap ← big_int (get o "soft_cap")
  hard_cap ← big_int (get o "hard_cap")
  some (some (record { soft_cap = soft_cap; hard_cap = hard_cap }))

module _ (c : ContractClient) where
  open c use {xdr}

  unfoldable pub version : Read xdr.ScVal Number
  unfolding simulate_return
  version = simulate_return c "version" ([]) (dec_number xdr)

  unfoldable pub get_pending_fees : String → Read xdr.ScVal ℤ
  unfolding simulate_return
  get_pending_fees token =
      simulate_return c "get_pending_fees" (address xdr token ∷ []) (dec_bigint xdr)

  unfoldable pub get_treasury_balance : String → Read xdr.ScVal ℤ
  unfolding simulate_return
  get_treasury_balance token =
      simulate_return c "get_treasury_balance" (address xdr token ∷ []) (dec_bigint xdr)

  unfoldable pub get_staker_balance : String → Read xdr.ScVal ℤ
  unfolding simulate_return
  get_staker_balance token =
      simulate_return c "get_staker_balance" (address xdr token ∷ []) (dec_bigint xdr)

  unfoldable pub get_insurance_sent : String → Read xdr.ScVal ℤ
  unfolding simulate_return
  get_insurance_sent token =
      simulate_return c "get_insurance_sent" (address xdr token ∷ []) (dec_bigint xdr)

  unfoldable pub get_risk_contract : Read xdr.ScVal (Option String)
  unfolding simulate_return
  get_risk_contract = simulate_return c "get_risk_contract" ([]) (λ v. nullable_text (raw xdr v))

  unfoldable pub get_insurance_target : Read xdr.ScVal (Option InsuranceTarget)
  unfolding simulate_return
  get_insurance_target =
      simulate_return c "get_insurance_target" ([]) (λ v. insurance_target (raw xdr v))

  unfoldable pub add_authorized_source : String → InvokeOptions → Call xdr.ScVal
  unfolding invoke
  add_authorized_source source opts =
      invoke c "add_authorized_source" (address xdr source ∷ []) opts

  unfoldable pub collect_fee : String → String → ℤ → InvokeOptions → Call xdr.ScVal
  unfolding invoke
  collect_fee source token amount opts =
      invoke c "collect_fee" (address xdr source ∷ address xdr token ∷ i128 xdr amount ∷ []) opts

  unfoldable pub distribute : String → InvokeOptions → Call xdr.ScVal
  unfolding invoke
  distribute token opts = invoke c "distribute" (address xdr token ∷ []) opts

  unfoldable pub withdraw_treasury : String → String → ℤ → InvokeOptions → Call xdr.ScVal
  unfolding invoke
  withdraw_treasury destination token amount opts =
      invoke c "withdraw_treasury"
        (address xdr destination ∷ address xdr token ∷ i128 xdr amount ∷ []) opts

  unfoldable pub update_split : ℤ → ℤ → ℤ → InvokeOptions → Call xdr.ScVal
  unfolding invoke
  update_split insurance_bps treasury_bps staker_bps opts =
      invoke c "update_split"
        (u32 xdr insurance_bps ∷ u32 xdr treasury_bps ∷ u32 xdr staker_bps ∷ []) opts

  unfoldable pub upgrade : List ℕ → InvokeOptions → Call xdr.ScVal
  unfolding invoke
  upgrade new_wasm_hash opts = invoke c "upgrade" (bytes_n xdr new_wasm_hash ∷ []) opts

  unfoldable pub set_risk_contract : String → InvokeOptions → Call xdr.ScVal
  unfolding invoke
  set_risk_contract risk opts = invoke c "set_risk_contract" (address xdr risk ∷ []) opts

  unfoldable pub set_insurance_target : ℤ → ℤ → InvokeOptions → Call xdr.ScVal
  unfolding invoke
  set_insurance_target soft_cap hard_cap opts =
      invoke c "set_insurance_target" (i128 xdr soft_cap ∷ i128 xdr hard_cap ∷ []) opts

  unfoldable pub collect_fee_with_trader :
      String → String → String → ℤ → ℤ → InvokeOptions → Call xdr.ScVal
  unfolding invoke
  collect_fee_with_trader source token trader notional amount opts =
      invoke c "collect_fee_with_trader"
        (address xdr source
          ∷ address xdr token
          ∷ address xdr trader
          ∷ i128 xdr notional
          ∷ i128 xdr amount
          ∷ [])
        opts

  unfoldable pub get_referral_paid : String → Read xdr.ScVal ℤ
  unfolding simulate_return
  get_referral_paid token =
      simulate_return c "get_referral_paid" (address xdr token ∷ []) (dec_bigint xdr)

  unfoldable pub get_referrals_contract : Read xdr.ScVal (Option String)
  unfolding simulate_return
  get_referrals_contract =
      simulate_return c "get_referrals_contract" ([]) (λ v. nullable_text (raw xdr v))

  unfoldable pub get_vault_contract : Read xdr.ScVal (Option String)
  unfolding simulate_return
  get_vault_contract = simulate_return c "get_vault_contract" ([]) (λ v. nullable_text (raw xdr v))

  unfoldable pub set_referrals_contract : String → InvokeOptions → Call xdr.ScVal
  unfolding invoke
  set_referrals_contract referrals opts =
      invoke c "set_referrals_contract" (address xdr referrals ∷ []) opts

  unfoldable pub set_vault_contract : String → InvokeOptions → Call xdr.ScVal
  unfolding invoke
  set_vault_contract vault opts = invoke c "set_vault_contract" (address xdr vault ∷ []) opts

  unfoldable pub set_lending_pool : String → InvokeOptions → Call xdr.ScVal
  unfolding invoke
  set_lending_pool pool opts = invoke c "set_lending_pool" (address xdr pool ∷ []) opts

  unfoldable pub get_lending_pool : Read xdr.ScVal (Option String)
  unfolding simulate_return
  get_lending_pool = simulate_return c "get_lending_pool" ([]) (λ v. nullable_text (raw xdr v))

  unfoldable pub get_lending_deposited : String → Read xdr.ScVal ℤ
  unfolding simulate_return
  get_lending_deposited token =
      simulate_return c "get_lending_deposited" (address xdr token ∷ []) (dec_bigint xdr)

  unfoldable pub deposit_to_lending : String → ℤ → InvokeOptions → Call xdr.ScVal
  unfolding invoke
  deposit_to_lending token amount opts =
      invoke c "deposit_to_lending" (address xdr token ∷ i128 xdr amount ∷ []) opts

  unfoldable pub withdraw_from_lending : String → ℤ → InvokeOptions → Call xdr.ScVal
  unfolding invoke
  withdraw_from_lending token amount opts =
      invoke c "withdraw_from_lending" (address xdr token ∷ i128 xdr amount ∷ []) opts
