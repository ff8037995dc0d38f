-- ===== src/Sdk/Staking/Fits.antt =====
-- The calls of the calls of the staking contract against the interface of the contract (contracts/stellax-staking/src/lib.rs).
use Prim.Native.String.{String}
use stellax.Base.{ℕ, ◌≡◌, List, [], ◌∷◌, length}
use stellax.Base.Int.{ℤ}
use stellax.Sdk.Xdr.{Ty, ty, no_ty}
use stellax.Sdk.ScVal.Typed.{u32-Typed, u64-Typed, i128-Typed, bytes_n-Typed, address-Typed}
use stellax.Sdk.Client.{ContractClient, InvokeOptions, invoke, simulate_return}
use stellax.Sdk.Client.Conforms.{Abi, Conforms}
use stellax.Sdk.Staking.{
  get_config, get_stake, get_epoch_reward, current_epoch, total_staked, version, initialize, stake,
  unstake, deposit_epoch_rewards, claim_rewards, upgrade,
}

abbrev pub abi : Abi
abi =
    ("version", no_ty)
    ∷ ("initialize", ty Ty.address (ty Ty.address (ty Ty.address (ty Ty.u64 no_ty))))
    ∷ ("upgrade", ty (Ty.bytes_n 32) no_ty)
    ∷ ("get_config", no_ty)
    ∷ ("current_epoch", no_ty)
    ∷ ("stake", ty Ty.address (ty Ty.i128 no_ty))
    ∷ ("unstake", ty Ty.address (ty Ty.i128 no_ty))
    ∷ ("deposit_epoch_rewards", ty Ty.address (ty Ty.address (ty Ty.i128 no_ty)))
    ∷ ("claim_rewards", ty Ty.address no_ty)
    ∷ ("get_stake", ty Ty.address no_ty)
    ∷ ("get_stake_amount", ty Ty.address no_ty)
    ∷ ("get_stake_epoch", ty Ty.address no_ty)
    ∷ ("get_epoch_reward", ty Ty.u32 no_ty)
    ∷ ("total_staked", no_ty)
    ∷ []

-- Every call of the client, whatever its arguments, fits the interface of the contract: the method is one of the contract, there are as many arguments as parameters, and each argument that is encoded has the type of its parameter.
-- The hash of `upgrade` has 32 bytes.
pub staking-Conforms :
    (c : ContractClient) (user : String) (epoch_id : ℤ) (admin : String) (stlx_token : String)
    (treasury : String) (epoch_duration_secs : ℤ) (opts : InvokeOptions) (amount : ℤ)
    (caller : String) (reward_token : String) (new_wasm_hash : List ℕ)
    (is_hash : length new_wasm_hash ≡ 32)
    → Conforms c.xdr abi (get_config c).call
      × Conforms c.xdr abi (get_stake c user).call
      × Conforms c.xdr abi (get_epoch_reward c epoch_id).call
      × Conforms c.xdr abi (current_epoch c).call
      × Conforms c.xdr abi (total_staked c).call
      × Conforms c.xdr abi (version c).call
      × Conforms c.xdr abi (initialize c admin stlx_token treasury epoch_duration_secs opts)
      × Conforms c.xdr abi (stake c user amount opts)
      × Conforms c.xdr abi (unstake c user amount opts)
      × Conforms c.xdr abi (deposit_epoch_rewards c caller reward_token amount opts)
      × Conforms c.xdr abi (claim_rewards c user opts)
      × Conforms c.xdr abi (upgrade c new_wasm_hash opts)
unfolding invoke simulate_return get_config get_stake get_epoch_reward current_epoch total_staked
    version initialize stake unstake deposit_epoch_rewards claim_rewards upgrade
staking-Conforms c user epoch_id admin stlx_token treasury epoch_duration_secs opts amount caller
      reward_token new_wasm_hash is_hash =
    (
      tt,
      (address-Typed c.xdr user, tt),
      (u32-Typed c.xdr epoch_id, tt),
      tt,
      tt,
      tt,
      (
        address-Typed c.xdr admin,
        (
          address-Typed c.xdr stlx_token,
          (address-Typed c.xdr treasury, (u64-Typed c.xdr epoch_duration_secs, tt)),
        ),
      ),
      (address-Typed c.xdr user, (i128-Typed c.xdr amount, tt)),
      (address-Typed c.xdr user, (i128-Typed c.xdr amount, tt)),
      (
        address-Typed c.xdr caller,
        (address-Typed c.xdr reward_token, (i128-Typed c.xdr amount, tt)),
      ),
      (address-Typed c.xdr user, tt),
      (bytes_n-Typed c.xdr 32 new_wasm_hash is_hash, tt),
    )
