-- ===== src/Sdk/Structured.antt =====
-- The calls of the structured vault (packages/sdk/src/clients/structured.ts, `StructuredClient`).
pub mod Reads
pub mod Fits
use Prim.Native.String.{String}
use stellax.Base.{ℕ, Bool, Option, some, List, [], ◌∷◌}
use stellax.Base.Int.{ℤ}
use stellax.Sdk.Native.{Number, ◌>>=◌, big_int, to_number, to_boolean, get}
use stellax.Sdk.Xdr.{Xdr}
use stellax.Sdk.ScVal.{
  u64, i128, symbol as enc_symbol, bytes_n, address, raw, dec_bigint, dec_number,
}
use stellax.Sdk.Client.{
  ContractClient, InvokeOptions, Call, Read, invoke, simulate_return, perform, Request,
}
use stellax.Sdk.ScVal.Types.{VaultEpoch}

pub record EpochState : Type 0 where
  pub epoch_id : Number
  pub start_time : ℤ
  pub end_time : ℤ
  pub strike : ℤ
  pub option_id : ℤ
  pub total_assets : ℤ
  pub premium : ℤ
  pub settled : Bool

module _ (x : Xdr) where
  open x use {ScVal}

  unfoldable pub decode_epoch_state : Option ScVal → Option EpochState
  unfolding raw
  decode_epoch_state v = do
    let o = raw x v
    epoch_id ← to_number (get o "epoch_id")
    start_time ← big_int (get o "start_time")
    end_time ← big_int (get o "end_time")
    strike ← big_int (get o "strike")
    option_id ← big_int (get o "option_id")
    total_assets ← big_int (get o "total_assets")
    premium ← big_int (get o "premium")
    let settled = to_boolean (get o "settled")
    some (record {
      epoch_id = epoch_id;
      start_time = start_time;
      end_time = end_time;
      strike = strike;
      option_id = option_id;
      total_assets = total_assets;
      premium = premium;
      settled = settled;
    })

module _ (c : ContractClient) where
  open c use {xdr}

  unfoldable pub get_epoch : Read xdr.ScVal EpochState
  unfolding simulate_return
  get_epoch = simulate_return c "get_epoch" ([]) (decode_epoch_state xdr)

  unfoldable pub balance : String → Read xdr.ScVal ℤ
  unfolding simulate_return
  balance user = simulate_return c "balance" (address xdr user ∷ []) (dec_bigint xdr)

  unfoldable pub total_assets : Read xdr.ScVal ℤ
  unfolding simulate_return
  total_assets = simulate_return c "total_assets" ([]) (dec_bigint xdr)

  unfoldable pub total_shares : Read xdr.ScVal ℤ
  unfolding simulate_return
  total_shares = simulate_return c "total_shares" ([]) (dec_bigint xdr)

  unfoldable pub version : Read xdr.ScVal Number
  unfolding simulate_return
  version = simulate_return c "version" ([]) (dec_number xdr)

  unfoldable pub deposit : String → ℤ → InvokeOptions → Call xdr.ScVal
  unfolding invoke
  deposit user amount opts = invoke c "deposit" (address xdr user ∷ i128 xdr amount ∷ []) opts

  unfoldable pub withdraw : String → ℤ → InvokeOptions → Call xdr.ScVal
  unfolding invoke
  withdraw user shares opts = invoke c "withdraw" (address xdr user ∷ i128 xdr shares ∷ []) opts

  unfoldable pub roll_epoch : InvokeOptions → Call xdr.ScVal
  unfolding invoke
  roll_epoch opts = invoke c "roll_epoch" ([]) opts

  unfoldable pub set_epoch_duration : ℤ → InvokeOptions → Call xdr.ScVal
  unfolding invoke
  set_epoch_duration secs opts = invoke c "set_epoch_duration" (u64 xdr secs ∷ []) opts

  unfoldable pub set_option_asset : String → InvokeOptions → Call xdr.ScVal
  unfolding invoke
  set_option_asset symbol opts = invoke c "set_option_asset" (enc_symbol xdr symbol ∷ []) opts

  unfoldable pub upgrade : List ℕ → InvokeOptions → Call xdr.ScVal
  unfolding invoke
  upgrade new_wasm_hash opts = invoke c "upgrade" (bytes_n xdr new_wasm_hash ∷ []) opts

  unfoldable pub get_current_epoch :
      (Request xdr.ScVal → Option (Option xdr.ScVal)) → Option VaultEpoch
  unfolding perform get_epoch
  get_current_epoch simulate = perform simulate get_epoch >>= λ e. some (record {
    epoch_id = e.epoch_id;
    start_time = e.start_time;
    end_time = e.end_time;
    total_deposits = e.total_assets;
    total_premium = e.premium;
    settled = e.settled;
  })

  unfoldable pub get_user_shares : String → Read xdr.ScVal ℤ
  unfolding balance
  get_user_shares user = balance user

  unfoldable pub get_nav : Read xdr.ScVal ℤ
  unfolding total_assets
  get_nav = total_assets
