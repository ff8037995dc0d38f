-- ===== src/Sdk/Vault/Balance.antt =====
-- The balance that the vault client puts together from two reads.
use Prim.Native.String.{String}
use stellax.Base.{arith, ◌≡◌, refl, Option, some, Bool-cases, inl, inr, ◌⊎◌, if◌then◌else◌}
use stellax.Base.Int.{ℤ, pos, ◌+ℤ◌, ◌-ℤ◌, ◌≤ℤ◌, ◌<ℤ◌, leb_ℤ, +ℤ_parts, -ℤ_parts, eq_of_parts}
use stellax.Sdk.Client.{ContractClient, Request, perform}
use stellax.Sdk.Vault.{get_total_collateral_value, get_free_collateral_value, get_vault_balance}

-- the locked part of a balance
locked_lem :
    (total free : ℤ)
    → let locked = if leb_ℤ free total then total -ℤ free else pos 0 in
      ((free ≤ℤ total) × (free +ℤ locked ≡ total)) ⊎ ((total <ℤ free) × (locked ≡ pos 0))
locked_lem total free = elim (Bool-cases (leb_ℤ free total)) [
  | inl h ↦ inl (
    ground arith,
    rw h (eq_of_parts _ _ (omega (arith, +ℤ_parts free (total -ℤ free), -ℤ_parts total free))),
  )
  | inr h ↦ inr (ground arith, rw h refl)
]

-- If both reads succeed, the balance has the second read as its free part; the locked part makes up the
-- total with it, or is zero if more is free than there is.
pub get_vault_balance-adds_up :
    (c : ContractClient) (simulate : Request c.xdr.ScVal → Option (Option c.xdr.ScVal))
    (user : String) (total free : ℤ)
    → perform simulate (get_total_collateral_value c user) ≡ some total
    → perform simulate (get_free_collateral_value c user) ≡ some free
    → (locked : ℤ) × (get_vault_balance c simulate user
        ≡ some (record { free = free; locked = locked }))
      × (((free ≤ℤ total) × (free +ℤ locked ≡ total)) ⊎ ((total <ℤ free) × (locked ≡ pos 0)))
unfolding get_vault_balance
get_vault_balance-adds_up c simulate user total free p q =
    (if leb_ℤ free total then total -ℤ free else pos 0, rw p (rw q refl), locked_lem total free)
