-- ===== src/Sdk/Vault/Fits.antt =====
-- The calls of the calls of the vault against the interface of the contract (contracts/stellax-vault/src/lib.rs).
use Prim.Native.String.{String}
use stellax.Base.{ℕ, ◌≡◌, List, [], ◌∷◌, length}
use stellax.Base.Int.{ℤ}
use stellax.Sdk.Xdr.{Ty, ty, no_ty}
use stellax.Sdk.ScVal.Typed.{u32-Typed, u64-Typed, i128-Typed, bytes_n-Typed, address-Typed}
use stellax.Sdk.Client.{ContractClient, InvokeOptions, invoke, simulate_return}
use stellax.Sdk.Client.Conforms.{Abi, Conforms}
use stellax.Sdk.Vault.{
  get_balance, get_total_collateral_value, get_free_collateral_value, version, deposit, withdraw,
  lock_margin, unlock_margin, add_authorized_caller, lock_isolated, unlock_isolated,
  realize_isolated_pnl, get_isolated_margin, get_isolated_margin_total, deposit_sub, withdraw_sub,
  transfer_between_subs, get_sub_balance, atomic_swap, upgrade, set_sub_account, get_sub_account,
}
use stellax.Sdk.Vault.{SubAccountRole, role_number}

abbrev pub abi : Abi
abi =
    (
      "__constructor",
      ty Ty.address (
          ty Ty.address (
            ty Ty.address (
              ty Ty.address (
                ty Ty.address
                  (ty (Ty.vec Ty.address) (ty (Ty.vec (Ty.udt "CollateralConfig")) no_ty)))))),
    )
    ∷ ("version", no_ty)
    ∷ ("deposit", ty Ty.address (ty Ty.address (ty Ty.i128 no_ty)))
    ∷ ("withdraw", ty Ty.address (ty Ty.address (ty Ty.i128 no_ty)))
    ∷ ("get_balance", ty Ty.address (ty Ty.address no_ty))
    ∷ ("get_total_collateral_value", ty Ty.address no_ty)
    ∷ ("get_free_collateral_value", ty Ty.address no_ty)
    ∷ ("set_margin_mode", ty Ty.address (ty (Ty.udt "MarginMode") no_ty))
    ∷ ("get_margin_mode", ty Ty.address no_ty)
    ∷ ("lock_margin", ty Ty.address (ty Ty.address (ty Ty.u64 (ty Ty.i128 no_ty))))
    ∷ ("unlock_margin", ty Ty.address (ty Ty.address (ty Ty.u64 (ty Ty.i128 no_ty))))
    ∷ ("lock_isolated", ty Ty.address (ty Ty.address (ty Ty.u64 (ty Ty.i128 no_ty))))
    ∷ ("unlock_isolated", ty Ty.address (ty Ty.address (ty Ty.u64 (ty Ty.i128 no_ty))))
    ∷ ("realize_isolated_pnl", ty Ty.address (ty Ty.address (ty Ty.u64 (ty Ty.i128 no_ty))))
    ∷ ("get_isolated_margin", ty Ty.address (ty Ty.u64 no_ty))
    ∷ ("get_isolated_margin_total", ty Ty.address no_ty)
    ∷ ("transfer_margin", ty Ty.address (ty Ty.address (ty Ty.bool (ty Ty.i128 no_ty))))
    ∷ (
      "move_balance",
      ty Ty.address (ty Ty.address (ty Ty.address (ty Ty.address (ty Ty.i128 no_ty)))),
    )
    ∷ ("update_collateral_config", ty (Ty.udt "CollateralConfig") no_ty)
    ∷ ("add_authorized_caller", ty Ty.address no_ty)
    ∷ ("seed_treasury", ty Ty.address (ty Ty.address (ty Ty.i128 no_ty)))
    ∷ ("set_sub_account", ty Ty.u32 (ty Ty.address no_ty))
    ∷ ("get_sub_account", ty Ty.u32 no_ty)
    ∷ ("credit", ty Ty.address (ty Ty.address (ty Ty.address (ty Ty.i128 no_ty))))
    ∷ ("debit", ty Ty.address (ty Ty.address (ty Ty.address (ty Ty.i128 no_ty))))
    ∷ ("update_dependencies", ty Ty.address (ty Ty.address (ty Ty.address (ty Ty.address no_ty))))
    ∷ ("deposit_sub", ty Ty.address (ty Ty.u32 (ty Ty.address (ty Ty.i128 no_ty))))
    ∷ ("withdraw_sub", ty Ty.address (ty Ty.u32 (ty Ty.address (ty Ty.i128 no_ty))))
    ∷ (
      "transfer_between_subs",
      ty Ty.address (ty Ty.u32 (ty Ty.u32 (ty Ty.address (ty Ty.i128 no_ty)))),
    )
    ∷ ("get_sub_balance", ty Ty.address (ty Ty.u32 (ty Ty.address no_ty)))
    ∷ (
      "atomic_swap",
      ty Ty.address (
          ty Ty.address
            (ty Ty.address (ty Ty.address (ty Ty.i128 (ty Ty.address (ty Ty.i128 no_ty)))))),
    )
    ∷ ("upgrade", ty (Ty.bytes_n 32) no_ty)
    ∷ []

-- Every call of the client, whatever its arguments, fits the interface of the contract: the method is one of the contract, there are as many arguments as parameters, and each argument that is encoded has the type of its parameter.
-- The hash of `upgrade` has 32 bytes.
pub vault-Conforms :
    (c : ContractClient) (user : String) (token : String) (amount : ℤ) (opts : InvokeOptions)
    (caller : String) (position_id : ℤ) (pnl : ℤ) (sub_id : ℤ) (from_sub : ℤ) (to_sub : ℤ)
    (amount_internal : ℤ) (party_a : String) (party_b : String) (token_a : String) (amount_a : ℤ)
    (token_b : String) (amount_b : ℤ) (new_wasm_hash : List ℕ) (role : SubAccountRole)
    (account : String) (is_hash : length new_wasm_hash ≡ 32)
    → Conforms c.xdr abi (get_balance c user token).call
      × Conforms c.xdr abi (get_total_collateral_value c user).call
      × Conforms c.xdr abi (get_free_collateral_value c user).call
      × Conforms c.xdr abi (version c).call
      × Conforms c.xdr abi (deposit c user token amount opts)
      × Conforms c.xdr abi (withdraw c user token amount opts)
      × Conforms c.xdr abi (lock_margin c caller user position_id amount opts)
      × Conforms c.xdr abi (unlock_margin c caller user position_id amount opts)
      × Conforms c.xdr abi (add_authorized_caller c caller opts)
      × Conforms c.xdr abi (lock_isolated c caller user position_id amount opts)
      × Conforms c.xdr abi (unlock_isolated c caller user position_id amount opts)
      × Conforms c.xdr abi (realize_isolated_pnl c caller user position_id pnl opts)
      × Conforms c.xdr abi (get_isolated_margin c user position_id).call
      × Conforms c.xdr abi (get_isolated_margin_total c user).call
      × Conforms c.xdr abi (deposit_sub c user sub_id token amount opts)
      × Conforms c.xdr abi (withdraw_sub c user sub_id token amount opts)
      × Conforms c.xdr abi (transfer_between_subs c user from_sub to_sub token amount_internal opts)
      × Conforms c.xdr abi (get_sub_balance c user sub_id token).call
      × Conforms c.xdr abi
          (atomic_swap c caller party_a party_b token_a amount_a token_b amount_b opts)
      × Conforms c.xdr abi (upgrade c new_wasm_hash opts)
      × Conforms c.xdr abi (set_sub_account c role account opts)
      × Conforms c.xdr abi (get_sub_account c role).call
unfolding invoke simulate_return get_balance get_total_collateral_value get_free_collateral_value
    version deposit withdraw lock_margin unlock_margin add_authorized_caller lock_isolated
    unlock_isolated realize_isolated_pnl get_isolated_margin get_isolated_margin_total deposit_sub
    withdraw_sub transfer_between_subs get_sub_balance atomic_swap upgrade set_sub_account
    get_sub_account
vault-Conforms c user token amount opts caller position_id pnl sub_id from_sub to_sub
      amount_internal party_a party_b token_a amount_a token_b amount_b new_wasm_hash role account
      is_hash =
    (
      (address-Typed c.xdr user, (address-Typed c.xdr token, tt)),
      (address-Typed c.xdr user, tt),
      (address-Typed c.xdr user, tt),
      tt,
      (address-Typed c.xdr user, (address-Typed c.xdr token, (i128-Typed c.xdr amount, tt))),
      (address-Typed c.xdr user, (address-Typed c.xdr token, (i128-Typed c.xdr amount, tt))),
      (
        address-Typed c.xdr caller,
        (address-Typed c.xdr user, (u64-Typed c.xdr position_id, (i128-Typed c.xdr amount, tt))),
      ),
      (
        address-Typed c.xdr caller,
        (address-Typed c.xdr user, (u64-Typed c.xdr position_id, (i128-Typed c.xdr amount, tt))),
      ),
      (address-Typed c.xdr caller, tt),
      (
        address-Typed c.xdr caller,
        (address-Typed c.xdr user, (u64-Typed c.xdr position_id, (i128-Typed c.xdr amount, tt))),
      ),
      (
        address-Typed c.xdr caller,
        (address-Typed c.xdr user, (u64-Typed c.xdr position_id, (i128-Typed c.xdr amount, tt))),
      ),
      (
        address-Typed c.xdr caller,
        (address-Typed c.xdr user, (u64-Typed c.xdr position_id, (i128-Typed c.xdr pnl, tt))),
      ),
      (address-Typed c.xdr user, (u64-Typed c.xdr position_id, tt)),
      (address-Typed c.xdr user, tt),
      (
        address-Typed c.xdr user,
        (u32-Typed c.xdr sub_id, (address-Typed c.xdr token, (i128-Typed c.xdr amount, tt))),
      ),
      (
        address-Typed c.xdr user,
        (u32-Typed c.xdr sub_id, (address-Typed c.xdr token, (i128-Typed c.xdr amount, tt))),
      ),
      (
        address-Typed c.xdr user,
        (
          u32-Typed c.xdr from_sub,
          (
            u32-Typed c.xdr to_sub,
            (address-Typed c.xdr token, (i128-Typed c.xdr amount_internal, tt)),
          ),
        ),
      ),
      (address-Typed c.xdr user, (u32-Typed c.xdr sub_id, (address-Typed c.xdr token, tt))),
      (
        address-Typed c.xdr caller,
        (
          address-Typed c.xdr party_a,
          (
            address-Typed c.xdr party_b,
            (
              address-Typed c.xdr token_a,
              (
                i128-Typed c.xdr amount_a,
                (address-Typed c.xdr token_b, (i128-Typed c.xdr amount_b, tt)),
              ),
            ),
          ),
        ),
      ),
      (bytes_n-Typed c.xdr 32 new_wasm_hash is_hash, tt),
      (u32-Typed c.xdr (role_number role), (address-Typed c.xdr account, tt)),
      (u32-Typed c.xdr (role_number role), tt),
    )
