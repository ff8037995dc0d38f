-- ===== src/Sdk/ScVal/Types.antt =====
-- The structs of packages/sdk/src/core/types.ts.
use Prim.Native.String.{String}
use stellax.Base.{ℕ, Bool, List}
use stellax.Base.Int.{ℤ}
use stellax.Sdk.Native.{Number}

pub record PriceData : Type 0 where
  pub price : ℤ
  pub package_timestamp : ℤ
  pub write_timestamp : ℤ

pub record Market : Type 0 where
  pub market_id : Number
  pub base_asset : String
  pub quote_asset : String
  pub max_leverage : Number
  pub maker_fee_bps : Number
  pub taker_fee_bps : Number
  pub max_oi_long : ℤ
  pub max_oi_short : ℤ
  pub is_active : Bool

pub record Position : Type 0 where
  pub owner : String
  pub market_id : Number
  pub size : ℤ
  pub entry_price : ℤ
  pub margin : ℤ
  pub leverage : Number
  pub is_long : Bool
  pub last_funding_idx : ℤ
  pub open_timestamp : ℤ

pub record OpenInterest : Type 0 where
  pub long : ℤ
  pub short : ℤ

pub record VaultBalance : Type 0 where
  pub free : ℤ
  pub locked : ℤ

pub record OptionContract : Type 0 where
  pub option_id : ℤ
  pub strike : ℤ
  pub expiry : ℤ
  pub is_call : Bool
  pub size : ℤ
  pub premium : ℤ
  pub writer : String
  pub holder : String
  pub is_exercised : Bool

pub record VaultEpoch : Type 0 where
  pub epoch_id : Number
  pub start_time : ℤ
  pub end_time : ℤ
  pub total_deposits : ℤ
  pub total_premium : ℤ
  pub settled : Bool

pub record BridgeDeposit : Type 0 where
  pub deposit_id : ℤ
  pub user : String
  pub amount : ℤ
  pub dest_chain : String
  pub dest_address : List ℕ
  pub released : Bool
  pub timestamp : ℤ

pub record Proposal : Type 0 where
  pub id : ℤ
  pub proposer : String
  pub target : String
  pub new_wasm_hash : List ℕ
  pub description : String
  pub start_time : ℤ
  pub end_time : ℤ
  pub eta : ℤ
  pub for_votes : ℤ
  pub against_votes : ℤ
  pub executed : Bool
  pub canceled : Bool

pub record Vote : Type 0 where
  pub support : Bool
  pub weight : ℤ
