-- ===== src/Sdk/Risk/Fits.antt =====
-- The calls of the calls of the risk engine against the interface of the contract (contracts/stellax-risk/src/lib.rs).
use Prim.Native.String.{String}
use stellax.Base.{ℕ, ◌≡◌, Option, List, [], ◌∷◌, length}
use stellax.Base.Int.{ℤ}
use stellax.Sdk.Xdr.{Ty, ty, no_ty}
use stellax.Sdk.ScVal.Typed.{u64-Typed, i128-Typed, bytes_n-Typed, address-Typed}
use stellax.Sdk.Client.{ContractClient, InvokeOptions, invoke, simulate_return}
use stellax.Sdk.Client.Conforms.{Abi, Conforms, price_bytes-Typed}
use stellax.Sdk.Risk.{
  get_account_health, version, compute_portfolio_greeks, get_portfolio_health, get_options_engine,
  set_options_engine, liquidate, upgrade, get_insurance_fund_balance, get_insurance_funders,
  add_insurance_funder, remove_insurance_funder, insurance_payout, is_paused, pause, unpause,
  set_slp_vault, get_slp_vault,
}

abbrev pub abi : Abi
abi =
    (
      "__constructor",
      ty Ty.address (
          ty Ty.address (
            ty Ty.address (
              ty Ty.address
                (ty Ty.address (ty Ty.address (ty Ty.address (ty Ty.address no_ty))))))),
    )
    ∷ ("version", no_ty)
    ∷ (
      "validate_new_position",
      ty Ty.address (ty Ty.u32 (ty Ty.i128 (ty Ty.i128 (ty Ty.u32 no_ty)))),
    )
    ∷ (
      "validate_new_pos_with_inputs",
      ty Ty.address (
          ty Ty.i128
            (ty Ty.i128 (ty Ty.u32 (ty Ty.u32 (ty Ty.i128 (ty Ty.i128 (ty Ty.i128 no_ty))))))),
    )
    ∷ ("validate_withdrawal", ty Ty.address (ty Ty.i128 no_ty))
    ∷ ("get_margin_requirement", ty Ty.address no_ty)
    ∷ ("margin_req_with_collateral", ty Ty.address (ty Ty.i128 no_ty))
    ∷ ("get_total_initial_margin_stored", ty Ty.address no_ty)
    ∷ ("get_account_equity", ty Ty.address no_ty)
    ∷ ("get_account_health", ty Ty.address no_ty)
    ∷ ("liquidate", ty Ty.address (ty Ty.address (ty Ty.u64 (ty (Ty.option Ty.bytes) no_ty))))
    ∷ ("get_insurance_fund_balance", no_ty)
    ∷ ("update_liquidation_config", ty Ty.u32 (ty Ty.u32 (ty Ty.i128 no_ty)))
    ∷ (
      "update_dependencies",
      ty Ty.address (
          ty Ty.address
            (ty Ty.address (ty Ty.address (ty Ty.address (ty Ty.address (ty Ty.address no_ty)))))),
    )
    ∷ ("set_options_engine", ty Ty.address no_ty)
    ∷ ("get_options_engine", no_ty)
    ∷ ("set_slp_vault", ty Ty.address no_ty)
    ∷ ("get_slp_vault", no_ty)
    ∷ ("set_funding_pool", ty Ty.address no_ty)
    ∷ ("get_funding_pool", no_ty)
    ∷ ("pause", no_ty)
    ∷ ("unpause", no_ty)
    ∷ ("is_paused", no_ty)
    ∷ ("compute_portfolio_greeks", ty Ty.address no_ty)
    ∷ ("get_portfolio_health", ty Ty.address no_ty)
    ∷ ("upgrade", ty (Ty.bytes_n 32) no_ty)
    ∷ ("add_insurance_funder", ty Ty.address no_ty)
    ∷ ("remove_insurance_funder", ty Ty.address no_ty)
    ∷ ("get_insurance_funders", no_ty)
    ∷ ("insurance_top_up", ty Ty.address (ty Ty.i128 no_ty))
    ∷ ("insurance_payout", ty Ty.address (ty Ty.i128 no_ty))
    ∷ []

-- Every call of the client, whatever its arguments, fits the interface of the contract: the method is one of the contract, there are as many arguments as parameters, and each argument that is encoded has the type of its parameter.
-- The hash of `upgrade` has 32 bytes.
pub risk-Conforms :
    (c : ContractClient) (user : String) (options : String) (opts : InvokeOptions) (keeper : String)
    (position_id : ℤ) (price_payload : Option (List ℕ)) (new_wasm_hash : List ℕ) (source : String)
    (recipient : String) (amount : ℤ) (slp_vault : String) (is_hash : length new_wasm_hash ≡ 32)
    → Conforms c.xdr abi (get_account_health c user).call
      × Conforms c.xdr abi (version c).call
      × Conforms c.xdr abi (compute_portfolio_greeks c user).call
      × Conforms c.xdr abi (get_portfolio_health c user).call
      × Conforms c.xdr abi (get_options_engine c).call
      × Conforms c.xdr abi (set_options_engine c options opts)
      × Conforms c.xdr abi (liquidate c keeper user position_id opts price_payload)
      × Conforms c.xdr abi (upgrade c new_wasm_hash opts)
      × Conforms c.xdr abi (get_insurance_fund_balance c).call
      × Conforms c.xdr abi (get_insurance_funders c).call
      × Conforms c.xdr abi (add_insurance_funder c source opts)
      × Conforms c.xdr abi (remove_insurance_funder c source opts)
      × Conforms c.xdr abi (insurance_payout c recipient amount opts)
      × Conforms c.xdr abi (is_paused c).call
      × Conforms c.xdr abi (pause c opts)
      × Conforms c.xdr abi (unpause c opts)
      × Conforms c.xdr abi (set_slp_vault c slp_vault opts)
      × Conforms c.xdr abi (get_slp_vault c).call
unfolding invoke simulate_return get_account_health version compute_portfolio_greeks
    get_portfolio_health get_options_engine set_options_engine liquidate upgrade
    get_insurance_fund_balance get_insurance_funders add_insurance_funder remove_insurance_funder
    insurance_payout is_paused pause unpause set_slp_vault get_slp_vault
risk-Conforms c user options opts keeper position_id price_payload new_wasm_hash source recipient
      amount slp_vault is_hash =
    (
      (address-Typed c.xdr user, tt),
      tt,
      (address-Typed c.xdr user, tt),
      (address-Typed c.xdr user, tt),
      tt,
      (address-Typed c.xdr options, tt),
      (
        address-Typed c.xdr keeper,
        (
          address-Typed c.xdr user,
          (u64-Typed c.xdr position_id, (price_bytes-Typed c price_payload, tt)),
        ),
      ),
      (bytes_n-Typed c.xdr 32 new_wasm_hash is_hash, tt),
      tt,
      tt,
      (address-Typed c.xdr source, tt),
      (address-Typed c.xdr source, tt),
      (address-Typed c.xdr recipient, (i128-Typed c.xdr amount, tt)),
      tt,
      tt,
      tt,
      (address-Typed c.xdr slp_vault, tt),
      tt,
    )
