-- ===== src/Sdk/Risk/Reads.antt =====
-- What the decoders of the risk client make of the structs that the contract returns.
use stellax.Base.{◌≡◌, refl, Bool, some, [], ◌∷◌}
use stellax.Base.Int.{ℤ}
use stellax.Sdk.Native.{bool, big, struct_of}
use stellax.Sdk.Xdr.{Xdr}
use stellax.Sdk.Risk.Structs.{
  decode_account_health, decode_liquidation_outcome, decode_portfolio_health,
}

-- Of the health of an account or a portfolio and of the outcome of a liquidation, as the contract returns
-- them, every field is read.
pub risk_structs-read :
    (x : Xdr) (account_health_v : x.ScVal)
    (account_health_equity account_health_total_margin_required account_health_margin_ratio
      account_health_free_collateral : ℤ)
    (account_health_liquidatable : Bool) (liquidation_outcome_v : x.ScVal)
    (liquidation_outcome_liquidated_size liquidation_outcome_oracle_price
      liquidation_outcome_remaining_margin liquidation_outcome_keeper_reward
      liquidation_outcome_insurance_delta : ℤ)
    (liquidation_outcome_adl_triggered : Bool) (portfolio_health_v : x.ScVal)
    (portfolio_health_total_collateral_value portfolio_health_portfolio_margin_required
      portfolio_health_free_collateral portfolio_health_net_delta_usd : ℤ)
    (portfolio_health_liquidatable : Bool)
    → x.sc_val_to_native account_health_v
      ≡ struct_of (
          ("equity", big account_health_equity)
          ∷ ("free_collateral", big account_health_free_collateral)
          ∷ ("liquidatable", bool account_health_liquidatable)
          ∷ ("margin_ratio", big account_health_margin_ratio)
          ∷ ("total_margin_required", big account_health_total_margin_required)
          ∷ [])
    → x.sc_val_to_native liquidation_outcome_v
      ≡ struct_of (
          ("adl_triggered", bool liquidation_outcome_adl_triggered)
          ∷ ("insurance_delta", big liquidation_outcome_insurance_delta)
          ∷ ("keeper_reward", big liquidation_outcome_keeper_reward)
          ∷ ("liquidated_size", big liquidation_outcome_liquidated_size)
          ∷ ("oracle_price", big liquidation_outcome_oracle_price)
          ∷ ("remaining_margin", big liquidation_outcome_remaining_margin)
          ∷ [])
    → x.sc_val_to_native portfolio_health_v
      ≡ struct_of (
          ("free_collateral", big portfolio_health_free_collateral)
          ∷ ("liquidatable", bool portfolio_health_liquidatable)
          ∷ ("net_delta_usd", big portfolio_health_net_delta_usd)
          ∷ ("portfolio_margin_required", big portfolio_health_portfolio_margin_required)
          ∷ ("total_collateral_value", big portfolio_health_total_collateral_value)
          ∷ [])
    → (decode_account_health x (some account_health_v)
        ≡ some (record {
          equity = account_health_equity;
          total_margin_required = account_health_total_margin_required;
          margin_ratio = account_health_margin_ratio;
          free_collateral = account_health_free_collateral;
          liquidatable = account_health_liquidatable;
        }))
      × (decode_liquidation_outcome x (some liquidation_outcome_v)
          ≡ some (record {
            liquidated_size = liquidation_outcome_liquidated_size;
            oracle_price = liquidation_outcome_oracle_price;
            remaining_margin = liquidation_outcome_remaining_margin;
            keeper_reward = liquidation_outcome_keeper_reward;
            insurance_delta = liquidation_outcome_insurance_delta;
            adl_triggered = liquidation_outcome_adl_triggered;
          }))
      × (decode_portfolio_health x (some portfolio_health_v)
          ≡ some (record {
            total_collateral_value = portfolio_health_total_collateral_value;
            portfolio_margin_required = portfolio_health_portfolio_margin_required;
            free_collateral = portfolio_health_free_collateral;
            liquidatable = portfolio_health_liquidatable;
            net_delta_usd = portfolio_health_net_delta_usd;
          }))
unfolding decode_account_health decode_liquidation_outcome decode_portfolio_health
risk_structs-read x account_health_v account_health_equity account_health_total_margin_required
      account_health_margin_ratio account_health_free_collateral account_health_liquidatable
      liquidation_outcome_v liquidation_outcome_liquidated_size liquidation_outcome_oracle_price
      liquidation_outcome_remaining_margin liquidation_outcome_keeper_reward
      liquidation_outcome_insurance_delta liquidation_outcome_adl_triggered portfolio_health_v
      portfolio_health_total_collateral_value portfolio_health_portfolio_margin_required
      portfolio_health_free_collateral portfolio_health_net_delta_usd portfolio_health_liquidatable
      h0 h1 h2 =
    (rw h0 refl, rw h1 refl, rw h2 refl)
