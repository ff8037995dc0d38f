-- ===== src/Sdk/Staking/Reads.antt =====
-- What the decoders of the staking client make of the structs that the contract returns.
use Prim.Native.String.{String}
use stellax.Base.{◌≡◌, refl, some, [], ◌∷◌}
use stellax.Base.Int.{ℤ}
use stellax.Sdk.Native.{int, number, big, text, struct_of}
use stellax.Sdk.Xdr.{Xdr}
use stellax.Sdk.Staking.{decode_staking_config, decode_stake_entry, decode_epoch_pool}

-- Of the configuration, a stake and the rewards of an epoch, as the contract returns them, every field is
-- read.
pub staking_structs-read :
    (x : Xdr) (staking_config_v : x.ScVal)
    (staking_config_admin staking_config_stlx_token staking_config_treasury : String)
    (staking_config_epoch_duration_secs : ℤ) (stake_entry_v : x.ScVal) (stake_entry_staker : String)
    (stake_entry_amount stake_entry_stake_epoch stake_entry_last_claim_epoch : ℤ)
    (epoch_reward_pool_v : x.ScVal)
    (epoch_reward_pool_epoch_id epoch_reward_pool_total_staked epoch_reward_pool_reward_amount
      epoch_reward_pool_claimed_amount : ℤ)
    (epoch_reward_pool_reward_token : String)
    → x.sc_val_to_native staking_config_v
      ≡ struct_of (
          ("admin", text staking_config_admin)
          ∷ ("epoch_duration_secs", big staking_config_epoch_duration_secs)
          ∷ ("stlx_token", text staking_config_stlx_token)
          ∷ ("treasury", text staking_config_treasury)
          ∷ [])
    → x.sc_val_to_native stake_entry_v
      ≡ struct_of (
          ("amount", big stake_entry_amount)
          ∷ ("last_claim_epoch", number stake_entry_last_claim_epoch)
          ∷ ("stake_epoch", number stake_entry_stake_epoch)
          ∷ ("staker", text stake_entry_staker)
          ∷ [])
    → x.sc_val_to_native epoch_reward_pool_v
      ≡ struct_of (
          ("claimed_amount", big epoch_reward_pool_claimed_amount)
          ∷ ("epoch_id", number epoch_reward_pool_epoch_id)
          ∷ ("reward_amount", big epoch_reward_pool_reward_amount)
          ∷ ("reward_token", text epoch_reward_pool_reward_token)
          ∷ ("total_staked", big epoch_reward_pool_total_staked)
          ∷ [])
    → (decode_staking_config x (some staking_config_v)
        ≡ some (record {
          admin = staking_config_admin;
          stlx_token = staking_config_stlx_token;
          treasury = staking_config_treasury;
          epoch_duration_secs = staking_config_epoch_duration_secs;
        }))
      × (decode_stake_entry x (some stake_entry_v)
          ≡ some (record {
            staker = stake_entry_staker;
            amount = stake_entry_amount;
            stake_epoch = int stake_entry_stake_epoch;
            last_claim_epoch = int stake_entry_last_claim_epoch;
          }))
      × (decode_epoch_pool x (some epoch_reward_pool_v)
          ≡ some (record {
            epoch_id = int epoch_reward_pool_epoch_id;
            total_staked = epoch_reward_pool_total_staked;
            reward_token = epoch_reward_pool_reward_token;
            reward_amount = epoch_reward_pool_reward_amount;
            claimed_amount = epoch_reward_pool_claimed_amount;
          }))
unfolding decode_staking_config decode_stake_entry decode_epoch_pool
staking_structs-read x staking_config_v staking_config_admin staking_config_stlx_token
      staking_config_treasury staking_config_epoch_duration_secs stake_entry_v stake_entry_staker
      stake_entry_amount stake_entry_stake_epoch stake_entry_last_claim_epoch epoch_reward_pool_v
      epoch_reward_pool_epoch_id epoch_reward_pool_total_staked epoch_reward_pool_reward_amount
      epoch_reward_pool_claimed_amount epoch_reward_pool_reward_token h0 h1 h2 =
    (rw h0 refl, rw h1 refl, rw h2 refl)
