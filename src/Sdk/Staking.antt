-- ===== src/Sdk/Staking.antt =====
-- The calls of the staking contract (packages/sdk/src/clients/staking.ts, `StakingClient`).
pub mod Reads
pub mod Fits
use Prim.Native.String.{String}
use stellax.Base.{ℕ, Option, some, List, [], ◌∷◌}
use stellax.Base.Int.{ℤ}
use stellax.Sdk.Native.{◌>>=◌, Number, big_int, to_number, to_text, get}
use stellax.Sdk.Xdr.{Xdr}
use stellax.Sdk.ScVal.{u32, u64, i128, bytes_n, address, raw, dec_bigint, dec_number}
use stellax.Sdk.Client.{ContractClient, InvokeOptions, Call, Read, invoke, simulate_return}

pub record StakingConfig : Type 0 where
  pub admin : String
  pub stlx_token : String
  pub treasury : String
  pub epoch_duration_secs : ℤ

pub record StakeEntry : Type 0 where
  pub staker : String
  pub amount : ℤ
  pub stake_epoch : Number
  pub last_claim_epoch : Number

pub record EpochRewardPool : Type 0 where
  pub epoch_id : Number
  pub total_staked : ℤ
  pub reward_token : String
  pub reward_amount : ℤ
  pub claimed_amount : ℤ

module _ (x : Xdr) where
  open x use {ScVal}

  unfoldable pub decode_staking_config : Option ScVal → Option StakingConfig
  unfolding raw
  decode_staking_config v = do
    let o = raw x v
    admin ← to_text (get o "admin")
    stlx_token ← to_text (get o "stlx_token")
    treasury ← to_text (get o "treasury")
    epoch_duration_secs ← big_int (get o "epoch_duration_secs")
    some (record {
      admin = admin;
      stlx_token = stlx_token;
      treasury = treasury;
      epoch_duration_secs = epoch_duration_secs;
    })

  unfoldable pub decode_stake_entry : Option ScVal → Option StakeEntry
  unfolding raw
  decode_stake_entry v = do
    let o = raw x v
    staker ← to_text (get o "staker")
    amount ← big_int (get o "amount")
    stake_epoch ← to_number (get o "stake_epoch")
    last_claim_epoch ← to_number (get o "last_claim_epoch")
    some (record {
      staker = staker;
      amount = amount;
      stake_epoch = stake_epoch;
      last_claim_epoch = last_claim_epoch;
    })

  unfoldable pub decode_epoch_pool : Option ScVal → Option EpochRewardPool
  unfolding raw
  decode_epoch_pool v = do
    let o = raw x v
    epoch_id ← to_number (get o "epoch_id")
    total_staked ← big_int (get o "total_staked")
    reward_token ← to_text (get o "reward_token")
    reward_amount ← big_int (get o "reward_amount")
    claimed_amount ← big_int (get o "claimed_amount")
    some (record {
      epoch_id = epoch_id;
      total_staked = total_staked;
      reward_token = reward_token;
      reward_amount = reward_amount;
      claimed_amount = claimed_amount;
    })

module _ (c : ContractClient) where
  open c use {xdr}

  unfoldable pub get_config : Read xdr.ScVal StakingConfig
  unfolding simulate_return
  get_config = simulate_return c "get_config" ([]) (decode_staking_config xdr)

  unfoldable pub get_stake : String → Read xdr.ScVal StakeEntry
  unfolding simulate_return
  get_stake user = simulate_return c "get_stake" (address xdr user ∷ []) (decode_stake_entry xdr)

  unfoldable pub get_epoch_reward : ℤ → Read xdr.ScVal EpochRewardPool
  unfolding simulate_return
  get_epoch_reward epoch_id =
      simulate_return c "get_epoch_reward" (u32 xdr epoch_id ∷ []) (decode_epoch_pool xdr)

  unfoldable pub current_epoch : Read xdr.ScVal Number
  unfolding simulate_return
  current_epoch = simulate_return c "current_epoch" ([]) (dec_number xdr)

  unfoldable pub total_staked : Read xdr.ScVal ℤ
  unfolding simulate_return
  total_staked = simulate_return c "total_staked" ([]) (dec_bigint xdr)

  unfoldable pub version : Read xdr.ScVal Number
  unfolding simulate_return
  version = simulate_return c "version" ([]) (dec_number xdr)

  unfoldable pub initialize : String → String → String → ℤ → InvokeOptions → Call xdr.ScVal
  unfolding invoke
  initialize admin stlx_token treasury epoch_duration_secs opts =
      invoke c "initialize"
        (address xdr admin
          ∷ address xdr stlx_token
          ∷ address xdr treasury
          ∷ u64 xdr epoch_duration_secs
          ∷ [])
        opts

  unfoldable pub stake : String → ℤ → InvokeOptions → Call xdr.ScVal
  unfolding invoke
  stake user amount opts = invoke c "stake" (address xdr user ∷ i128 xdr amount ∷ []) opts

  unfoldable pub unstake : String → ℤ → InvokeOptions → Call xdr.ScVal
  unfolding invoke
  unstake user amount opts = invoke c "unstake" (address xdr user ∷ i128 xdr amount ∷ []) opts

  unfoldable pub deposit_epoch_rewards : String → String → ℤ → InvokeOptions → Call xdr.ScVal
  unfolding invoke
  deposit_epoch_rewards caller reward_token amount opts =
      invoke c "deposit_epoch_rewards"
        (address xdr caller ∷ address xdr reward_token ∷ i128 xdr amount ∷ []) opts

  unfoldable pub claim_rewards : String → InvokeOptions → Call xdr.ScVal
  unfolding invoke
  claim_rewards user opts = invoke c "claim_rewards" (address xdr user ∷ []) opts

  unfoldable pub upgrade : List ℕ → InvokeOptions → Call xdr.ScVal
  unfolding invoke
  upgrade new_wasm_hash opts = invoke c "upgrade" (bytes_n xdr new_wasm_hash ∷ []) opts
