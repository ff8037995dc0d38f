-- ===== src/Sdk/Vault.antt =====
-- The calls of the vault (packages/sdk/src/clients/vault.ts, `VaultClient`).
pub mod Balance
mod Tests
pub mod Fits
use Prim.Native.String.{String}
use stellax.Base.{ℕ, Option, some, List, [], ◌∷◌, if◌then◌else◌}
use stellax.Base.Int.{ℤ, pos, leb_ℤ, ◌-ℤ◌}
use stellax.Sdk.Native.{◌>>=◌, Number, number}
use stellax.Sdk.ScVal.{u32, u64, i128, bytes_n, address, dec_bigint, dec_number, dec_address}
use stellax.Sdk.Client.{
  ContractClient, InvokeOptions, Call, Read, invoke, simulate_return, perform, Request,
}
use stellax.Sdk.ScVal.Types.{VaultBalance}

pub data SubAccountRole : Type 0 where
  treasury insurance slp_pool funding_pool : SubAccountRole

-- `role as number`
abbrev pub role_number : SubAccountRole → ℤ
role_number treasury = pos 0
role_number insurance = pos 1
role_number slp_pool = pos 2
role_number funding_pool = pos 3

module _ (c : ContractClient) where
  open c use {xdr}

  unfoldable pub get_balance : String → String → Read xdr.ScVal ℤ
  unfolding simulate_return
  get_balance user token =
      simulate_return c "get_balance" (address xdr user ∷ address xdr token ∷ []) (dec_bigint xdr)

  unfoldable pub get_total_collateral_value : String → Read xdr.ScVal ℤ
  unfolding simulate_return
  get_total_collateral_value user =
      simulate_return c "get_total_collateral_value" (address xdr user ∷ []) (dec_bigint xdr)

  unfoldable pub get_free_collateral_value : String → Read xdr.ScVal ℤ
  unfolding simulate_return
  get_free_collateral_value user =
      simulate_return c "get_free_collateral_value" (address xdr user ∷ []) (dec_bigint xdr)

  unfoldable pub version : Read xdr.ScVal Number
  unfolding simulate_return
  version = simulate_return c "version" ([]) (dec_number xdr)

  unfoldable pub deposit : String → String → ℤ → InvokeOptions → Call xdr.ScVal
  unfolding invoke
  deposit user token amount opts =
      invoke c "deposit" (address xdr user ∷ address xdr token ∷ i128 xdr amount ∷ []) opts

  unfoldable pub withdraw : String → String → ℤ → InvokeOptions → Call xdr.ScVal
  unfolding invoke
  withdraw user token amount opts =
      invoke c "withdraw" (address xdr user ∷ address xdr token ∷ i128 xdr amount ∷ []) opts

  unfoldable pub lock_margin : String → String → ℤ → ℤ → InvokeOptions → Call xdr.ScVal
  unfolding invoke
  lock_margin caller user position_id amount opts =
      invoke c "lock_margin"
        (address xdr caller ∷ address xdr user ∷ u64 xdr position_id ∷ i128 xdr amount ∷ []) opts

  unfoldable pub unlock_margin : String → String → ℤ → ℤ → InvokeOptions → Call xdr.ScVal
  unfolding invoke
  unlock_margin caller user position_id amount opts =
      invoke c "unlock_margin"
        (address xdr caller ∷ address xdr user ∷ u64 xdr position_id ∷ i128 xdr amount ∷ []) opts

  unfoldable pub add_authorized_caller : String → InvokeOptions → Call xdr.ScVal
  unfolding invoke
  add_authorized_caller caller opts =
      invoke c "add_authorized_caller" (address xdr caller ∷ []) opts

  unfoldable pub lock_isolated : String → String → ℤ → ℤ → InvokeOptions → Call xdr.ScVal
  unfolding invoke
  lock_isolated caller user position_id amount opts =
      invoke c "lock_isolated"
        (address xdr caller ∷ address xdr user ∷ u64 xdr position_id ∷ i128 xdr amount ∷ []) opts

  unfoldable pub unlock_isolated : String → String → ℤ → ℤ → InvokeOptions → Call xdr.ScVal
  unfolding invoke
  unlock_isolated caller user position_id amount opts =
      invoke c "unlock_isolated"
        (address xdr caller ∷ address xdr user ∷ u64 xdr position_id ∷ i128 xdr amount ∷ []) opts

  unfoldable pub realize_isolated_pnl : String → String → ℤ → ℤ → InvokeOptions → Call xdr.ScVal
  unfolding invoke
  realize_isolated_pnl caller user position_id pnl opts =
      invoke c "realize_isolated_pnl"
        (address xdr caller ∷ address xdr user ∷ u64 xdr position_id ∷ i128 xdr pnl ∷ []) opts

  unfoldable pub get_isolated_margin : String → ℤ → Read xdr.ScVal ℤ
  unfolding simulate_return
  get_isolated_margin user position_id =
      simulate_return c "get_isolated_margin" (address xdr user ∷ u64 xdr position_id ∷ [])
        (dec_bigint xdr)

  unfoldable pub get_isolated_margin_total : String → Read xdr.ScVal ℤ
  unfolding simulate_return
  get_isolated_margin_total user =
      simulate_return c "get_isolated_margin_total" (address xdr user ∷ []) (dec_bigint xdr)

  unfoldable pub deposit_sub : String → ℤ → String → ℤ → InvokeOptions → Call xdr.ScVal
  unfolding invoke
  deposit_sub user sub_id token amount opts =
      invoke c "deposit_sub"
        (address xdr user ∷ u32 xdr sub_id ∷ address xdr token ∷ i128 xdr amount ∷ []) opts

  unfoldable pub withdraw_sub : String → ℤ → String → ℤ → InvokeOptions → Call xdr.ScVal
  unfolding invoke
  withdraw_sub user sub_id token amount opts =
      invoke c "withdraw_sub"
        (address xdr user ∷ u32 xdr sub_id ∷ address xdr token ∷ i128 xdr amount ∷ []) opts

  unfoldable pub transfer_between_subs :
      String → ℤ → ℤ → String → ℤ → InvokeOptions → Call xdr.ScVal
  unfolding invoke
  transfer_between_subs user from_sub to_sub token amount_internal opts =
      invoke c "transfer_between_subs"
        (address xdr user
          ∷ u32 xdr from_sub
          ∷ u32 xdr to_sub
          ∷ address xdr token
          ∷ i128 xdr amount_internal
          ∷ [])
        opts

  unfoldable pub get_sub_balance : String → ℤ → String → Read xdr.ScVal ℤ
  unfolding simulate_return
  get_sub_balance user sub_id token =
      simulate_return c "get_sub_balance"
        (address xdr user ∷ u32 xdr sub_id ∷ address xdr token ∷ []) (dec_bigint xdr)

  unfoldable pub atomic_swap :
      String → String → String → String → ℤ → String → ℤ → InvokeOptions → Call xdr.ScVal
  unfolding invoke
  atomic_swap caller party_a party_b token_a amount_a token_b amount_b opts =
      invoke c "atomic_swap"
        (address xdr caller
          ∷ address xdr party_a
          ∷ address xdr party_b
          ∷ address xdr token_a
          ∷ i128 xdr amount_a
          ∷ address xdr token_b
          ∷ i128 xdr amount_b
          ∷ [])
        opts

  unfoldable pub upgrade : List ℕ → InvokeOptions → Call xdr.ScVal
  unfolding invoke
  upgrade new_wasm_hash opts = invoke c "upgrade" (bytes_n xdr new_wasm_hash ∷ []) opts

  unfoldable pub set_sub_account : SubAccountRole → String → InvokeOptions → Call xdr.ScVal
  unfolding invoke
  set_sub_account role account opts =
      invoke c "set_sub_account" (u32 xdr (role_number role) ∷ address xdr account ∷ []) opts

  unfoldable pub get_sub_account : SubAccountRole → Read xdr.ScVal String
  unfolding simulate_return
  get_sub_account role =
      simulate_return c "get_sub_account" (u32 xdr (role_number role) ∷ []) (dec_address xdr)

  -- two reads; the locked part is never negative
  unfoldable pub get_vault_balance :
      (Request xdr.ScVal → Option (Option xdr.ScVal)) → String → Option VaultBalance
  unfolding perform get_total_collateral_value get_free_collateral_value
  get_vault_balance simulate user = do
    total ← perform simulate (get_total_collateral_value user)
    free ← perform simulate (get_free_collateral_value user)
    some (record { free = free; locked = if leb_ℤ free total then total -ℤ free else pos 0 })
