-- ===== src/Keeper/Wire.antt =====
-- What the workers' calls are sent as: the method and the arguments that each worker gives to
-- `stellar.invoke`, or to a client of the SDK over `KeeperExecutor` (packages/keeper/src).
pub mod Fits
mod Tests
use Prim.Native.String.{String}
use stellax.Base.{ℕ, zero, suc, Option, none, List, [], ◌∷◌, map}
use stellax.Base.Int.{ℤ, pos}
use stellax.Keeper.Chain.{
  Call as ContractCall, settle_matched_orders, liquidate, update_funding,
  settle_funding_for_position, roll_epoch, set_apy_bps, credit_yield, sweep_fees,
  bridge_collateral_in, admin_push_price, write_prices,
}
use stellax.Sdk.Native.{Native, get}
use stellax.Sdk.ScVal.{u32, u64, i128, symbol, bytes_val, address, vec}
use stellax.Sdk.Client.{ContractClient, Call}

abbrev zeros : ℕ → List ℕ
zeros zero = []
zeros (suc n) = 0 ∷ zeros n

-- `new Uint8Array(32)`
abbrev pub usdc_token_id : List ℕ
usdc_token_id = zeros 32

-- The keeper's own address, and the string that a list of UTF-16 units is, are parameters.
module _ (c : ContractClient) (public_key : String) (string_of : List ℕ → String) where
  open c use {xdr, contract_id}

  abbrev call_with : String → List (Option xdr.ScVal) → Call xdr.ScVal
  call_with method args = record {
    contract_id = contract_id;
    method = method;
    args = args;
    opts = none;
  }

  unfoldable pub send : ContractCall → Call xdr.ScVal
  send (settle_matched_orders buy sell) =
      call_with "settle_matched_orders"
        (address xdr public_key ∷ u64 xdr (pos buy) ∷ u64 xdr (pos sell) ∷ [])
  send (liquidate position_id) = call_with "liquidate" (u64 xdr (pos position_id) ∷ [])
  send (update_funding market_id) = call_with "update_funding" (u32 xdr (pos market_id) ∷ [])
  send (settle_funding_for_position position_id) =
      call_with "settle_funding_for_position" (u64 xdr (pos position_id) ∷ [])
  send roll_epoch = call_with "roll_epoch" []
  send (set_apy_bps apy_bps) = call_with "set_apy_bps" (u32 xdr (pos apy_bps) ∷ [])
  send (credit_yield addrs amounts epoch_id) = call_with "credit_yield" (
      vec xdr (map (address xdr) addrs)
      ∷ vec xdr (map (i128 xdr) amounts)
      ∷ u64 xdr (pos epoch_id)
      ∷ [])
  send (sweep_fees amount) = call_with "sweep_fees" (i128 xdr amount ∷ [])
  send (bridge_collateral_in recipient amount) = call_with "bridge_collateral_in" (
      address xdr public_key
      ∷ address xdr (string_of recipient)
      ∷ bytes_val xdr usdc_token_id
      ∷ i128 xdr (pos amount)
      ∷ [])
  send (admin_push_price asset price18 pkg_ts) =
      call_with "admin_push_price" (symbol xdr asset ∷ i128 xdr price18 ∷ u64 xdr pkg_ts ∷ [])
  send (write_prices payload) = call_with "write_prices" (bytes_val xdr payload ∷ [])

  -- the reads of the admin oracle pusher, the fee sweeper, the liquidation bot and the vault roller
  unfoldable pub get_price : String → Call xdr.ScVal
  get_price asset = call_with "get_price" (symbol xdr asset ∷ [])

  unfoldable pub get_balance : String → String → Call xdr.ScVal
  get_balance treasury_address usdc_token_id' =
      call_with "get_balance" (address xdr treasury_address ∷ address xdr usdc_token_id' ∷ [])

  unfoldable pub get_account_health : String → Call xdr.ScVal
  get_account_health user = call_with "get_account_health" (address xdr user ∷ [])

  unfoldable pub get_epoch : Call xdr.ScVal
  get_epoch = call_with "get_epoch" []

-- `returnValue as Health`: the members that the liquidation bot reads
pub record HealthMembers : Type 0 where
  pub margin_ratio_bps : Native
  pub liquidatable : Native

unfoldable pub health_members : Native → HealthMembers
health_members o = record {
  margin_ratio_bps = get o "marginRatioBps";
  liquidatable = get o "liquidatable";
}
