-- ===== src/Sdk/Vault/Tests.antt =====
-- Every call of the vault client at concrete arguments.
use Prim.Native.String.{String}
use stellax.Base.{ℕ, zero, suc, refl, Option, none, some, List, [], ◌∷◌}
use stellax.Base.Int.{ℤ, pos}
use stellax.Sdk.Xdr.Model.{model}
use stellax.Sdk.Client.{ContractClient, InvokeOptions}
use stellax.Sdk.Client.Conforms.{Conforms}
use stellax.Sdk.Vault.{
  get_balance, get_total_collateral_value, get_free_collateral_value, version, deposit, withdraw,
  lock_margin, unlock_margin, add_authorized_caller, lock_isolated, unlock_isolated,
  realize_isolated_pnl, get_isolated_margin, get_isolated_margin_total, deposit_sub, withdraw_sub,
  transfer_between_subs, get_sub_balance, atomic_swap, upgrade, set_sub_account, get_sub_account,
}
use stellax.Sdk.Vault.Fits.{abi, vault-Conforms}
use stellax.Sdk.Vault.{insurance}

abbrev copies : ℕ → List ℕ
copies zero = []
copies (suc n) = 1 ∷ copies n

abbrev who : String
who = "GABC"

abbrev seven : ℤ
seven = pos 7

abbrev hash : List ℕ
hash = copies 32

abbrev no_payload : Option (List ℕ)
no_payload = none

abbrev options : InvokeOptions
options = record { source_account = "GABC"; timeout_seconds = none; max_retries = some 3 }

abbrev client : ContractClient
client = record { xdr = model; contract_id = "CXYZ" }

vault-Conforms_example :
    Conforms client.xdr abi (get_balance client who who).call
    × Conforms client.xdr abi (get_total_collateral_value client who).call
    × Conforms client.xdr abi (get_free_collateral_value client who).call
    × Conforms client.xdr abi (version client).call
    × Conforms client.xdr abi (deposit client who who seven options)
    × Conforms client.xdr abi (withdraw client who who seven options)
    × Conforms client.xdr abi (lock_margin client who who seven seven options)
    × Conforms client.xdr abi (unlock_margin client who who seven seven options)
    × Conforms client.xdr abi (add_authorized_caller client who options)
    × Conforms client.xdr abi (lock_isolated client who who seven seven options)
    × Conforms client.xdr abi (unlock_isolated client who who seven seven options)
    × Conforms client.xdr abi (realize_isolated_pnl client who who seven seven options)
    × Conforms client.xdr abi (get_isolated_margin client who seven).call
    × Conforms client.xdr abi (get_isolated_margin_total client who).call
    × Conforms client.xdr abi (deposit_sub client who seven who seven options)
    × Conforms client.xdr abi (withdraw_sub client who seven who seven options)
    × Conforms client.xdr abi (transfer_between_subs client who seven seven who seven options)
    × Conforms client.xdr abi (get_sub_balance client who seven who).call
    × Conforms client.xdr abi (atomic_swap client who who who who seven who seven options)
    × Conforms client.xdr abi (upgrade client hash options)
    × Conforms client.xdr abi (set_sub_account client insurance who options)
    × Conforms client.xdr abi (get_sub_account client insurance).call
vault-Conforms_example =
    vault-Conforms client who who seven options who seven seven seven seven seven seven who who who
      seven who seven hash insurance who refl
