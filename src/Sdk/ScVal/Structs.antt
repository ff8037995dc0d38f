-- ===== src/Sdk/ScVal/Structs.antt =====
-- The decoders of the structs (`structs` of packages/sdk/src/core/scval.ts).
use stellax.Base.{Option, some}
use stellax.Sdk.Native.{◌>>=◌, big_int, to_number, to_text, to_boolean, to_bytes, get}
use stellax.Sdk.Xdr.{Xdr}
use stellax.Sdk.ScVal.{native}
use stellax.Sdk.ScVal.Types.{
  PriceData, Market, Position, OpenInterest, VaultBalance, OptionContract, VaultEpoch,
  BridgeDeposit, Proposal, Vote,
}

module _ (x : Xdr) where
  open x use {ScVal}

  unfoldable pub price_data : Option ScVal → Option PriceData
  unfolding native
  price_data v = do
    o ← native x v
    price ← big_int (get o "price")
    package_timestamp ← big_int (get o "package_timestamp")
    write_timestamp ← big_int (get o "write_timestamp")
    some (record {
      price = price;
      package_timestamp = package_timestamp;
      write_timestamp = write_timestamp;
    })

  unfoldable pub market : Option ScVal → Option Market
  unfolding native
  market v = do
    o ← native x v
    market_id ← to_number (get o "market_id")
    base_asset ← to_text (get o "base_asset")
    quote_asset ← to_text (get o "quote_asset")
    max_leverage ← to_number (get o "max_leverage")
    maker_fee_bps ← to_number (get o "maker_fee_bps")
    taker_fee_bps ← to_number (get o "taker_fee_bps")
    max_oi_long ← big_int (get o "max_oi_long")
    max_oi_short ← big_int (get o "max_oi_short")
    let is_active = to_boolean (get o "is_active")
    some (record {
      market_id = market_id;
      base_asset = base_asset;
      quote_asset = quote_asset;
      max_leverage = max_leverage;
      maker_fee_bps = maker_fee_bps;
      taker_fee_bps = taker_fee_bps;
      max_oi_long = max_oi_long;
      max_oi_short = max_oi_short;
      is_active = is_active;
    })

  unfoldable pub position : Option ScVal → Option Position
  unfolding native
  position v = do
    o ← native x v
    owner ← to_text (get o "owner")
    market_id ← to_number (get o "market_id")
    size ← big_int (get o "size")
    entry_price ← big_int (get o "entry_price")
    margin ← big_int (get o "margin")
    leverage ← to_number (get o "leverage")
    let is_long = to_boolean (get o "is_long")
    last_funding_idx ← big_int (get o "last_funding_idx")
    open_timestamp ← big_int (get o "open_timestamp")
    some (record {
      owner = owner;
      market_id = market_id;
      size = size;
      entry_price = entry_price;
      margin = margin;
      leverage = leverage;
      is_long = is_long;
      last_funding_idx = last_funding_idx;
      open_timestamp = open_timestamp;
    })

  unfoldable pub open_interest : Option ScVal → Option OpenInterest
  unfolding native
  open_interest v = do
    o ← native x v
    long ← big_int (get o "long")
    short ← big_int (get o "short")
    some (record { long = long; short = short })

  unfoldable pub vault_balance : Option ScVal → Option VaultBalance
  unfolding native
  vault_balance v = do
    o ← native x v
    free ← big_int (get o "free")
    locked ← big_int (get o "locked")
    some (record { free = free; locked = locked })

  unfoldable pub option : Option ScVal → Option OptionContract
  unfolding native
  option v = do
    o ← native x v
    option_id ← big_int (get o "option_id")
    strike ← big_int (get o "strike")
    expiry ← big_int (get o "expiry")
    let is_call = to_boolean (get o "is_call")
    size ← big_int (get o "size")
    premium ← big_int (get o "premium")
    writer ← to_text (get o "writer")
    holder ← to_text (get o "holder")
    let is_exercised = to_boolean (get o "is_exercised")
    some (record {
      option_id = option_id;
      strike = strike;
      expiry = expiry;
      is_call = is_call;
      size = size;
      premium = premium;
      writer = writer;
      holder = holder;
      is_exercised = is_exercised;
    })

  unfoldable pub vault_epoch : Option ScVal → Option VaultEpoch
  unfolding native
  vault_epoch v = do
    o ← native x v
    epoch_id ← to_number (get o "epoch_id")
    start_time ← big_int (get o "start_time")
    end_time ← big_int (get o "end_time")
    total_deposits ← big_int (get o "total_deposits")
    total_premium ← big_int (get o "total_premium")
    let settled = to_boolean (get o "settled")
    some (record {
      epoch_id = epoch_id;
      start_time = start_time;
      end_time = end_time;
      total_deposits = total_deposits;
      total_premium = total_premium;
      settled = settled;
    })

  unfoldable pub bridge_deposit : Option ScVal → Option BridgeDeposit
  unfolding native
  bridge_deposit v = do
    o ← native x v
    deposit_id ← big_int (get o "deposit_id")
    user ← to_text (get o "user")
    amount ← big_int (get o "amount")
    dest_chain ← to_text (get o "dest_chain")
    dest_address ← to_bytes (get o "dest_address")
    let released = to_boolean (get o "released")
    timestamp ← big_int (get o "timestamp")
    some (record {
      deposit_id = deposit_id;
      user = user;
      amount = amount;
      dest_chain = dest_chain;
      dest_address = dest_address;
      released = released;
      timestamp = timestamp;
    })

  unfoldable pub proposal : Option ScVal → Option Proposal
  unfolding native
  proposal v = do
    o ← native x v
    id ← big_int (get o "id")
    proposer ← to_text (get o "proposer")
    target ← to_text (get o "target")
    new_wasm_hash ← to_bytes (get o "new_wasm_hash")
    description ← to_text (get o "description")
    start_time ← big_int (get o "start_time")
    end_time ← big_int (get o "end_time")
    eta ← big_int (get o "eta")
    for_votes ← big_int (get o "for_votes")
    against_votes ← big_int (get o "against_votes")
    let executed = to_boolean (get o "executed")
    let canceled = to_boolean (get o "canceled")
    some (record {
      id = id;
      proposer = proposer;
      target = target;
      new_wasm_hash = new_wasm_hash;
      description = description;
      start_time = start_time;
      end_time = end_time;
      eta = eta;
      for_votes = for_votes;
      against_votes = against_votes;
      executed = executed;
      canceled = canceled;
    })

  unfoldable pub vote : Option ScVal → Option Vote
  unfolding native
  vote v = do
    o ← native x v
    let support = to_boolean (get o "support")
    weight ← big_int (get o "weight")
    some (record { support = support; weight = weight })
