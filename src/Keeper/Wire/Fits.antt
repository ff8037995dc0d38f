-- ===== src/Keeper/Wire/Fits.antt =====
-- The calls of the workers against the interfaces of the contracts that they are sent to.
use Prim.Native.String.{String}
use stellax.Base.{ℕ, ◌≡◌, refl, Bool, true, false, some, List, [], ◌∷◌}
use stellax.Base.Int.{ℤ, pos}
use stellax.Keeper.Chain.{
  Call as ContractCall, settle_matched_orders, liquidate, update_funding,
  settle_funding_for_position, roll_epoch, set_apy_bps, credit_yield, sweep_fees,
  bridge_collateral_in, admin_push_price, write_prices,
}
use stellax.Keeper.Wire.{
  send, usdc_token_id, get_price, get_balance, get_account_health, get_epoch, health_members,
}
use stellax.Sdk.Native.{big, bool, undefined, struct_of}
use stellax.Sdk.Xdr.{Ty}
use stellax.Sdk.ScVal.{i128, address, bytes_val}
use stellax.Sdk.ScVal.Typed.{
  Arg, u32-Typed, u64-Typed, i128-Typed, symbol-Typed, bytes-Typed, address-Typed, vec-Typed,
}
use stellax.Sdk.Client.{ContractClient, Request, request}
use stellax.Sdk.Client.Conforms.{Abi, Conforms, Accepts, Accepts-Given}
use stellax.Sdk.Clob.Fits.{abi as clob_abi}
use stellax.Sdk.Risk.Fits.{abi as risk_abi}
use stellax.Sdk.Funding.Fits.{abi as funding_abi}
use stellax.Sdk.Structured.Fits.{abi as structured_abi}
use stellax.Sdk.RwaIssuer.Fits.{abi as issuer_abi}
use stellax.Sdk.SlpVault.Fits.{abi as slp_abi}
use stellax.Sdk.Bridge.Fits.{abi as bridge_abi}
use stellax.Sdk.Oracle.Fits.{abi as oracle_abi}
use stellax.Sdk.Vault.Fits.{abi as vault_abi}

-- the contract that a call is sent to
abbrev pub abi_of : ContractCall → Abi
abi_of (settle_matched_orders buy sell) = clob_abi
abi_of (liquidate position_id) = risk_abi
abi_of (update_funding market_id) = funding_abi
abi_of (settle_funding_for_position position_id) = funding_abi
abi_of roll_epoch = structured_abi
abi_of (set_apy_bps apy_bps) = issuer_abi
abi_of (credit_yield addrs amounts epoch_id) = issuer_abi
abi_of (sweep_fees amount) = slp_abi
abi_of (bridge_collateral_in recipient amount) = bridge_abi
abi_of (admin_push_price asset price18 pkg_ts) = oracle_abi
abi_of (write_prices payload) = oracle_abi

abbrev pub is_liquidation : ContractCall → Bool
is_liquidation (liquidate position_id) = true
is_liquidation other = false

module _ (c : ContractClient) (public_key : String) (string_of : List ℕ → String) where
  token-Typed : Arg c.xdr (bytes_val c.xdr usdc_token_id) (Ty.bytes_n 32)
  unfolding bytes_val
  token-Typed v e = c.xdr.scalar_bytes_n usdc_token_id v e

  -- Every call of the workers but the liquidation, whatever its arguments, fits the interface of the
  -- contract that it is sent to.
  pub send-Conforms :
      (call : ContractCall)
      → is_liquidation call ≡ false
      → Conforms c.xdr (abi_of call) (send c public_key string_of call)
  unfolding send
  send-Conforms (settle_matched_orders buy sell) h = (
    address-Typed c.xdr public_key,
    (u64-Typed c.xdr (pos buy), (u64-Typed c.xdr (pos sell), tt)),
  )
  send-Conforms (liquidate position_id) h = absurd (cc)
  send-Conforms (update_funding market_id) h = (u32-Typed c.xdr (pos market_id), tt)
  send-Conforms (settle_funding_for_position position_id) h =
      (u64-Typed c.xdr (pos position_id), tt)
  send-Conforms roll_epoch h = tt
  send-Conforms (set_apy_bps apy_bps) h = (u32-Typed c.xdr (pos apy_bps), tt)
  send-Conforms (credit_yield addrs amounts epoch_id) h = (
    vec-Typed c.xdr (address c.xdr) Ty.address (address-Typed c.xdr) addrs,
    (
      vec-Typed c.xdr (i128 c.xdr) Ty.i128 (i128-Typed c.xdr) amounts,
      (u64-Typed c.xdr (pos epoch_id), tt),
    ),
  )
  send-Conforms (sweep_fees amount) h = (i128-Typed c.xdr amount, tt)
  send-Conforms (bridge_collateral_in recipient amount) h = (
    address-Typed c.xdr public_key,
    (address-Typed c.xdr (string_of recipient), (token-Typed, (i128-Typed c.xdr (pos amount), tt))),
  )
  send-Conforms (admin_push_price asset price18 pkg_ts) h =
      (symbol-Typed c.xdr asset, (i128-Typed c.xdr price18, (u64-Typed c.xdr pkg_ts, tt)))
  send-Conforms (write_prices payload) h = (bytes-Typed c.xdr payload, tt)

  -- The risk contract accepts no liquidation that the bot sends: `liquidate` takes the keeper, the user,
  -- the position and a price payload, and the bot sends the position alone.
  pub liquidate-Rejected :
      (position_id : ℕ) (q : Request c.xdr.ScVal)
      → request (send c public_key string_of (liquidate position_id)) ≡ some q
      → ¬ Accepts c.xdr risk_abi q
  unfolding send
  liquidate-Rejected position_id q e h =
      (Accepts-Given c.xdr risk_abi (send c public_key string_of (liquidate position_id)) q e h).1

  -- So do the reads.
  pub reads-Conform :
      (asset treasury_address token user : String)
      → Conforms c.xdr oracle_abi (get_price c public_key string_of asset)
        × Conforms c.xdr vault_abi (get_balance c public_key string_of treasury_address token)
        × Conforms c.xdr risk_abi (get_account_health c public_key string_of user)
        × Conforms c.xdr structured_abi (get_epoch c public_key string_of)
  unfolding get_price get_balance get_account_health get_epoch
  reads-Conform asset treasury_address token user = (
    (symbol-Typed c.xdr asset, tt),
    (address-Typed c.xdr treasury_address, (address-Typed c.xdr token, tt)),
    (address-Typed c.xdr user, tt),
    tt,
  )

-- Of the health of an account as the contract returns it the bot reads whether it is liquidatable and no
-- margin ratio: the contract's member is `margin_ratio`.
pub health_members-no_ratio :
    (equity free_collateral margin_ratio total_margin_required : ℤ) (liquidatable : Bool)
    → health_members (
        struct_of (
          ("equity", big equity)
          ∷ ("free_collateral", big free_collateral)
          ∷ ("liquidatable", bool liquidatable)
          ∷ ("margin_ratio", big margin_ratio)
          ∷ ("total_margin_required", big total_margin_required)
          ∷ []))
      ≡ record { margin_ratio_bps = undefined; liquidatable = bool liquidatable }
unfolding health_members
health_members-no_ratio equity free_collateral margin_ratio total_margin_required liquidatable =
    refl
