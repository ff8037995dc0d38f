-- ===== src/Sdk/Risk.antt =====
-- The calls of the risk engine (packages/sdk/src/clients/risk.ts, `RiskClient`).
pub mod Structs
pub mod Reads
pub mod Fits
use Prim.Native.String.{String}
use stellax.Base.{ℕ, Bool, Option, some, List, [], ◌∷◌}
use stellax.Base.Int.{ℤ}
use stellax.Sdk.Native.{Number, ◌>>=◌, to_boolean}
use stellax.Sdk.ScVal.{
  u64, i128, bytes_n, address, raw, dec_bigint, dec_number, dec_address, dec_vec,
}
use stellax.Sdk.Client.{
  ContractClient, InvokeOptions, Call, Read, invoke, simulate_return, price_bytes, perform, Request,
}
use stellax.Sdk.Perp.Plans.{decode_slp_vault}
use stellax.Sdk.Risk.Structs.{
  AccountHealth, PortfolioGreeks, PortfolioHealth, decode_account_health, decode_portfolio_greeks,
  decode_portfolio_health,
}

module _ (c : ContractClient) where
  open c use {xdr}

  unfoldable pub get_account_health : String → Read xdr.ScVal AccountHealth
  unfolding simulate_return
  get_account_health user =
      simulate_return c "get_account_health" (address xdr user ∷ []) (decode_account_health xdr)

  unfoldable pub version : Read xdr.ScVal Number
  unfolding simulate_return
  version = simulate_return c "version" ([]) (dec_number xdr)

  unfoldable pub compute_portfolio_greeks : String → Read xdr.ScVal PortfolioGreeks
  unfolding simulate_return
  compute_portfolio_greeks user =
      simulate_return c "compute_portfolio_greeks" (address xdr user ∷ [])
        (decode_portfolio_greeks xdr)

  unfoldable pub get_portfolio_health : String → Read xdr.ScVal PortfolioHealth
  unfolding simulate_return
  get_portfolio_health user =
      simulate_return c "get_portfolio_health" (address xdr user ∷ []) (decode_portfolio_health xdr)

  unfoldable pub get_options_engine : Read xdr.ScVal String
  unfolding simulate_return
  get_options_engine = simulate_return c "get_options_engine" ([]) (dec_address xdr)

  unfoldable pub set_options_engine : String → InvokeOptions → Call xdr.ScVal
  unfolding invoke
  set_options_engine options opts = invoke c "set_options_engine" (address xdr options ∷ []) opts

  unfoldable pub liquidate : String → String → ℤ → InvokeOptions → Option (List ℕ) → Call xdr.ScVal
  unfolding invoke
  liquidate keeper user position_id opts price_payload =
      invoke c "liquidate"
        (address xdr keeper
          ∷ address xdr user
          ∷ u64 xdr position_id
          ∷ price_bytes c price_payload
          ∷ [])
        opts

  unfoldable pub upgrade : List ℕ → InvokeOptions → Call xdr.ScVal
  unfolding invoke
  upgrade new_wasm_hash opts = invoke c "upgrade" (bytes_n xdr new_wasm_hash ∷ []) opts

  unfoldable pub get_insurance_fund_balance : Read xdr.ScVal ℤ
  unfolding simulate_return
  get_insurance_fund_balance = simulate_return c "get_insurance_fund_balance" ([]) (dec_bigint xdr)

  unfoldable pub get_insurance_funders : Read xdr.ScVal (List String)
  unfolding simulate_return
  get_insurance_funders =
      simulate_return c "get_insurance_funders" ([])
        (λ v. dec_vec xdr v (λ i. dec_address xdr (some i)))

  unfoldable pub add_insurance_funder : String → InvokeOptions → Call xdr.ScVal
  unfolding invoke
  add_insurance_funder source opts = invoke c "add_insurance_funder" (address xdr source ∷ []) opts

  unfoldable pub remove_insurance_funder : String → InvokeOptions → Call xdr.ScVal
  unfolding invoke
  remove_insurance_funder source opts =
      invoke c "remove_insurance_funder" (address xdr source ∷ []) opts

  unfoldable pub insurance_payout : String → ℤ → InvokeOptions → Call xdr.ScVal
  unfolding invoke
  insurance_payout recipient amount opts =
      invoke c "insurance_payout" (address xdr recipient ∷ i128 xdr amount ∷ []) opts

  unfoldable pub is_paused : Read xdr.ScVal Bool
  unfolding simulate_return
  is_paused = simulate_return c "is_paused" ([]) (λ v. some (to_boolean (raw xdr v)))

  unfoldable pub pause : InvokeOptions → Call xdr.ScVal
  unfolding invoke
  pause opts = invoke c "pause" ([]) opts

  unfoldable pub unpause : InvokeOptions → Call xdr.ScVal
  unfolding invoke
  unpause opts = invoke c "unpause" ([]) opts

  unfoldable pub set_slp_vault : String → InvokeOptions → Call xdr.ScVal
  unfolding invoke
  set_slp_vault slp_vault opts = invoke c "set_slp_vault" (address xdr slp_vault ∷ []) opts

  unfoldable pub get_slp_vault : Read xdr.ScVal (Option String)
  unfolding simulate_return
  get_slp_vault = simulate_return c "get_slp_vault" ([]) (decode_slp_vault xdr)

  unfoldable pub get_account_equity :
      (Request xdr.ScVal → Option (Option xdr.ScVal)) → String → Option ℤ
  unfolding perform get_account_health
  get_account_equity simulate user =
      perform simulate (get_account_health user) >>= λ h. some h.equity

  unfoldable pub get_free_collateral :
      (Request xdr.ScVal → Option (Option xdr.ScVal)) → String → Option ℤ
  unfolding perform get_account_health
  get_free_collateral simulate user =
      perform simulate (get_account_health user) >>= λ h. some h.free_collateral

  unfoldable pub get_maintenance_margin :
      (Request xdr.ScVal → Option (Option xdr.ScVal)) → String → Option ℤ
  unfolding perform get_account_health
  get_maintenance_margin simulate user =
      perform simulate (get_account_health user) >>= λ h. some h.total_margin_required
