-- ===== src/Indexer/Decode/Decoders.antt =====
-- The decoders of packages/indexer/src/watcher.ts, one for each kind of event.
use stellax.Base.{ℕ, false, ◌||◌, Option, none, some, List, if◌then◌else◌}
use stellax.Base.Int.{ℤ, pos}
use stellax.Indexer.Rows.{
  Text, same_text, to_upper_case, closed, modified, inbound, outbound, status_open, PriceSource,
}
use stellax.Indexer.Watcher.{
  RwaHolderEvent, rwa_transfer, rwa_mint, rwa_burn, rwa_yield, DecodedEvent, position_open,
  position_close, position_modify, liquidation, deposit, order_place, order_cancel, order_fill,
  oracle_price, rwa_holder,
}
use stellax.Indexer.Decode.Values.{
  codes, Scalar, undefined, int, text, bool, bytes, Native, ◌>>=◌, at, to_str, to_id, number,
  or_zero, string, string_or_empty, truthy, elements, as_array, array_or_empty, first_of,
}

module _ (topics : List Scalar) (value : Native) (ts : ℕ) where
  unfoldable pub decode_pos_open : Text → Option DecodedEvent
  decode_pos_open tx = do
    user ← string (at topics 1)
    position_id ← to_id (at topics 2)
    market_id ← number (or_zero (at topics 3))
    vs ← elements value
    size ← to_str (at vs 0)
    price ← to_str (at vs 1)
    leverage ← number (at vs 2)
    some (
        position_open (record {
          position_id = position_id;
          user = user;
          market_id = market_id;
          is_long = truthy (at vs 3);
          size = size;
          entry_price = price;
          leverage = leverage;
          opened_at = ts;
          open_tx_hash = tx;
        }))

  unfoldable pub decode_pos_close : Text → Option DecodedEvent
  decode_pos_close tx = do
    user ← string (at topics 1)
    position_id ← to_id (at topics 2)
    vs ← elements value
    price ← to_str (at vs 0)
    pnl ← to_str (at vs 1)
    some (
        position_close (record {
          user = user;
          position_id = position_id;
          market_id = 0;
          kind = closed;
          size = pos 0;
          price = price;
          pnl = some pnl;
          is_long = false;
          ts = ts;
          tx_hash = tx;
        }))

  unfoldable pub decode_pos_mod : Text → Option DecodedEvent
  decode_pos_mod tx = do
    user ← string (at topics 1)
    position_id ← to_id (at topics 2)
    price ← to_str (or_zero (first_of value))
    some (
        position_modify (record {
          user = user;
          position_id = position_id;
          market_id = 0;
          kind = modified;
          size = pos 0;
          price = price;
          pnl = none;
          is_long = false;
          ts = ts;
          tx_hash = tx;
        }))

  unfoldable pub decode_liquidation : Text → Option DecodedEvent
  decode_liquidation tx = do
    user ← string (at topics 1)
    position_id ← to_id (at topics 2)
    vs ← elements value
    price ← to_str (at vs 0)
    margin ← to_str (at vs 1)
    reward ← to_str (at vs 2)
    some (
        liquidation (record {
          user = user;
          position_id = position_id;
          oracle_price = price;
          remaining_margin = margin;
          keeper_reward = reward;
          ts = ts;
          tx_hash = tx;
        }))

  unfoldable pub decode_oracle_price : Text → PriceSource → Option DecodedEvent
  decode_oracle_price tx source = do
    feed ← string_or_empty (at topics 1)
    vs ← elements value
    price ← to_str (at vs 0)
    stamp ← to_id (at vs 1)
    some (
        oracle_price (record {
          feed = to_upper_case feed;
          price = price;
          package_timestamp = stamp;
          write_timestamp = ts;
          source = source;
          tx_hash = tx;
        }))

  unfoldable pub decode_deposit_in : Text → Option DecodedEvent
  decode_deposit_in tx = do
    user ← string_or_empty (at (as_array value) 0)
    amount ← to_str (or_zero (at (as_array value) 1))
    some (
        deposit (record {
          direction = inbound;
          user = user;
          amount = amount;
          dest_chain = none;
          ts = ts;
          tx_hash = tx;
        }))

  abbrev chain_name : Scalar → Option Text
  chain_name undefined = none
  chain_name (int n) = none
  chain_name (text t) = some t
  chain_name (bool b) = none
  chain_name (bytes bs) = none

  unfoldable pub decode_lock : Text → Option DecodedEvent
  decode_lock tx = do
    user ← string_or_empty (at (as_array value) 0)
    amount ← to_str (or_zero (at (as_array value) 1))
    some (
        deposit (record {
          direction = outbound;
          user = user;
          amount = amount;
          dest_chain = chain_name (at (as_array value) 2);
          ts = ts;
          tx_hash = tx;
        }))

  unfoldable pub decode_order_place : Text → Option DecodedEvent
  decode_order_place tx = do
    trader ← string_or_empty (at topics 1)
    order_id ← to_id (or_zero (at topics 2))
    market_id ← number (or_zero (at (array_or_empty value) 0))
    size ← to_str (or_zero (at (array_or_empty value) 1))
    price ← to_str (or_zero (at (array_or_empty value) 2))
    some (
        order_place (record {
          order_id = order_id;
          trader = trader;
          market_id = market_id;
          is_long = truthy (at (array_or_empty value) 3);
          price = price;
          size = size;
          filled_size = pos 0;
          status = status_open;
          placed_at = ts;
          updated_at = ts;
          place_tx_hash = tx;
        }))

  unfoldable pub decode_order_cancel : Option DecodedEvent
  decode_order_cancel = do order_id ← to_id (or_zero (at topics 2)); some (order_cancel order_id ts)

  unfoldable pub decode_order_settle : Option DecodedEvent
  decode_order_settle = do
    buy_id ← to_id (or_zero (at topics 1))
    sell_id ← to_id (or_zero (at topics 2))
    fill_size ← to_str (or_zero (at (array_or_empty value) 0))
    some (order_fill buy_id sell_id fill_size ts)

  -- the amount and the addresses of a holder's event
  abbrev amount_of : Option ℤ
  amount_of = to_str (or_zero (at (as_array value) 0))

  abbrev moved : Text → Option DecodedEvent
  moved feed = do
    n ← amount_of
    source ← string_or_empty (at topics 1)
    to ← string_or_empty (at topics 2)
    some (rwa_holder (rwa_transfer feed source to n ts))

  abbrev changed : (Text → ℤ → RwaHolderEvent) → Option DecodedEvent
  changed make = do
    n ← amount_of
    address ← string_or_empty (at topics 1)
    some (rwa_holder (make address n))

  unfoldable pub decode_rwa_holder_event : Text → Text → Option DecodedEvent
  decode_rwa_holder_event feed tag =
      let minted = changed (λ a n. rwa_mint feed a n ts) in
      let burned = changed (λ a n. rwa_burn feed a n ts) in
      let credited = changed (λ a n. rwa_yield feed a n ts) in
      if same_text tag (codes "mint")
      then minted
      else if same_text tag (codes "burn") || same_text tag (codes "burn_from")
      then burned
      else if same_text tag (codes "transfer") || same_text tag (codes "xfer_from")
      then moved feed
      else if same_text tag (codes "yield_credit")
      then credited
      else none
