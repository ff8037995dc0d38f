-- ===== src/Sdk/Risk/Structs.antt =====
-- The structs that the risk engine returns and their decoders (packages/sdk/src/clients/risk.ts).
use stellax.Base.{
  ℕ, Bool, Option, none, some, List, [], ◌∷◌, if◌then◌else◌, ◌+◌, ◌*◌, ◌-◌, leb, ◌&&◌,
}
use stellax.Base.Int.{ℤ, pos, leb_ℤ}
use stellax.Sdk.Native.{Native, object, ◌>>=◌, big_int, to_boolean, get, Members, member, no_member}
use stellax.Sdk.Xdr.{Xdr}
use stellax.Sdk.ScVal.{raw}
use stellax.Sdk.Js.{codes, Text}

pub record AccountHealth : Type 0 where
  pub equity : ℤ
  pub total_margin_required : ℤ
  pub margin_ratio : ℤ
  pub free_collateral : ℤ
  pub liquidatable : Bool

pub record LiquidationOutcome : Type 0 where
  pub liquidated_size : ℤ
  pub oracle_price : ℤ
  pub remaining_margin : ℤ
  pub keeper_reward : ℤ
  pub insurance_delta : ℤ
  pub adl_triggered : Bool

pub record PortfolioHealth : Type 0 where
  pub total_collateral_value : ℤ
  pub portfolio_margin_required : ℤ
  pub free_collateral : ℤ
  pub liquidatable : Bool
  pub net_delta_usd : ℤ

pub record PortfolioGreeks : Type 0 where
  pub net_delta : List (ℤ × ℤ)
  pub total_notional : ℤ
  pub net_delta_notional : ℤ

-- `Number(k)` of a key that is a string of decimal digits
abbrev pub digits : ℕ → Text → Option ℕ
digits n [] = some n
digits n (d ∷ s) = if leb b'0' d && leb d b'9' then digits (10 * n + (d - b'0')) s else none

abbrev pub same : ℤ → ℤ → Bool
same a b = leb_ℤ a b && leb_ℤ b a

-- `netDelta.set(k, v)`
unfoldable pub set_key : ℤ → ℤ → List (ℤ × ℤ) → List (ℤ × ℤ)
set_key k v [] = (k, v) ∷ []
set_key k v ((j, w) ∷ m) =
    let rest = set_key k v m in if same j k then (j, v) ∷ m else (j, w) ∷ rest

unfoldable pub net_delta_of : List (ℤ × ℤ) → Members → Option (List (ℤ × ℤ))
unfolding set_key
net_delta_of m no_member = some m
net_delta_of m (member k val rest) = do
  n ← digits 0 (codes k)
  v ← big_int val
  net_delta_of (set_key (pos n) v m) rest

-- `Object.entries(o.net_delta ?? {})`
abbrev pub members_in : Native → Members
members_in (object ms) = ms
members_in other = no_member

module _ (x : Xdr) where
  open x use {ScVal}

  unfoldable pub decode_account_health : Option ScVal → Option AccountHealth
  unfolding raw
  decode_account_health v = do
    let o = raw x v
    equity ← big_int (get o "equity")
    total_margin_required ← big_int (get o "total_margin_required")
    margin_ratio ← big_int (get o "margin_ratio")
    free_collateral ← big_int (get o "free_collateral")
    let liquidatable = to_boolean (get o "liquidatable")
    some (record {
      equity = equity;
      total_margin_required = total_margin_required;
      margin_ratio = margin_ratio;
      free_collateral = free_collateral;
      liquidatable = liquidatable;
    })

  unfoldable pub decode_liquidation_outcome : Option ScVal → Option LiquidationOutcome
  unfolding raw
  decode_liquidation_outcome v = do
    let o = raw x v
    liquidated_size ← big_int (get o "liquidated_size")
    oracle_price ← big_int (get o "oracle_price")
    remaining_margin ← big_int (get o "remaining_margin")
    keeper_reward ← big_int (get o "keeper_reward")
    insurance_delta ← big_int (get o "insurance_delta")
    let adl_triggered = to_boolean (get o "adl_triggered")
    some (record {
      liquidated_size = liquidated_size;
      oracle_price = oracle_price;
      remaining_margin = remaining_margin;
      keeper_reward = keeper_reward;
      insurance_delta = insurance_delta;
      adl_triggered = adl_triggered;
    })

  unfoldable pub decode_portfolio_health : Option ScVal → Option PortfolioHealth
  unfolding raw
  decode_portfolio_health v = do
    let o = raw x v
    total_collateral_value ← big_int (get o "total_collateral_value")
    portfolio_margin_required ← big_int (get o "portfolio_margin_required")
    free_collateral ← big_int (get o "free_collateral")
    let liquidatable = to_boolean (get o "liquidatable")
    net_delta_usd ← big_int (get o "net_delta_usd")
    some (record {
      total_collateral_value = total_collateral_value;
      portfolio_margin_required = portfolio_margin_required;
      free_collateral = free_collateral;
      liquidatable = liquidatable;
      net_delta_usd = net_delta_usd;
    })

  unfoldable pub decode_portfolio_greeks : Option ScVal → Option PortfolioGreeks
  unfolding raw net_delta_of
  decode_portfolio_greeks v = do
    let o = raw x v
    net_delta ← net_delta_of [] (members_in (get o "net_delta"))
    total_notional ← big_int (get o "total_notional")
    net_delta_notional ← big_int (get o "net_delta_notional")
    some (record {
      net_delta = net_delta;
      total_notional = total_notional;
      net_delta_notional = net_delta_notional;
    })
