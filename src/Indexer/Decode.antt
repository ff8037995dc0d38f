-- ===== src/Indexer/Decode.antt =====
-- The decoding of the chain's events (`decode` and the decoders of packages/indexer/src/watcher.ts).
-- `scValToNative` turns an ScVal into a value of JavaScript: here a scalar or a flat vector of scalars,
-- which is what the contracts publish. A row keeps integers and texts, so a field that the source would
-- fill with another kind of string (the `toStr` of a text, `NaN`) makes the decoder answer `none`.
pub mod Values
pub mod Decoders
pub mod Published
mod Tests
use Prim.Native.Char.{code}
use Prim.Native.String.{String}
use stellax.Base.{
  ℕ, zero, suc, ◌≡◌, Bool, true, false, not, ◌||◌, Option, none, some, List, [], ◌∷◌, ◌==◌, ◌/◌,
  if◌then◌else◌, length, filter, take, drop, ◌++◌, map, ltb,
}
use stellax.Base.Int.{ℤ, pos, negsuc}
use stellax.Indexer.Rows.{
  Text, same_text, to_upper_case, PositionRow, TradeRow, opened, closed, modified, LiquidationRow,
  DepositRow, inbound, outbound, OrderRow, status_open, OraclePriceRow, PriceSource, redstone,
  admin,
}
use stellax.Indexer.Watcher.{
  RwaHolderEvent, rwa_transfer, rwa_mint, rwa_burn, rwa_yield, DecodedEvent, position_open,
  position_close, position_modify, liquidation, deposit, order_place, order_cancel, order_fill,
  oracle_price, rwa_holder, Event, Answer, page, failure, tick,
}
use stellax.Indexer.Store.{Store}
use stellax.Indexer.Decode.Values.{
  codes, Scalar, undefined, int, text, bool, bytes, Native, scalar, tuple, RawEvent, ◌>>=◌, at,
  to_str, natural, to_id, number, or_zero, string, string_or_empty, truthy, elements, as_array,
  array_or_empty, first_of,
}
use stellax.Indexer.Decode.Decoders.{
  decode_pos_open, decode_pos_close, decode_pos_mod, decode_liquidation, decode_oracle_price,
  decode_deposit_in, decode_lock, decode_order_place, decode_order_cancel, decode_order_settle,
  decode_rwa_holder_event,
}

module _ (topics : List Scalar) (value : Native) (ts : ℕ) where
  -- the `switch` of `decode`
  unfoldable pub decode_tag : Text → Text → Option DecodedEvent
  unfolding decode_pos_open decode_pos_close decode_pos_mod decode_liquidation decode_oracle_price
      decode_deposit_in decode_lock decode_order_place decode_order_cancel decode_order_settle
  decode_tag tag tx =
      if same_text tag (codes "posopen")
      then decode_pos_open topics value ts tx
      else if same_text tag (codes "posclose")
      then decode_pos_close topics value ts tx
      else if same_text tag (codes "posmod")
      then decode_pos_mod topics value ts tx
      else if same_text tag (codes "liq")
      then decode_liquidation topics value ts tx
      else if same_text tag (codes "dep_in")
      then decode_deposit_in topics value ts tx
      else if same_text tag (codes "lock")
      then decode_lock topics value ts tx
      else if same_text tag (codes "ordplace")
      then decode_order_place topics value ts tx
      else if same_text tag (codes "ordcancel")
      then decode_order_cancel topics value ts
      else if same_text tag (codes "settled")
      then decode_order_settle topics value ts
      else if same_text tag (codes "price_upd")
      then decode_oracle_price topics value ts tx redstone
      else if same_text tag (codes "price_adm")
      then decode_oracle_price topics value ts tx admin
      else none

-- `rwaIssuers?.[contractId]`
abbrev pub feed_of : List (Text × Text) → Text → Option Text
feed_of [] id = none
feed_of ((k, feed) ∷ issuers) id = if same_text k id then some feed else feed_of issuers id

-- the tag: the first topic if it is a string
abbrev pub tag_of : List Scalar → Option Text
tag_of [] = none
tag_of (undefined ∷ vs) = none
tag_of (int n ∷ vs) = none
tag_of (text t ∷ vs) = some t
tag_of (bool b ∷ vs) = none
tag_of (bytes bs ∷ vs) = none

abbrev pub or_else_decode : Option DecodedEvent → Option DecodedEvent → Option DecodedEvent
or_else_decode none d = d
or_else_decode (some e) d = some e

-- an event of a known issuer; an empty feed is no feed
abbrev decode_issuer : Option Text → RawEvent → Text → Option DecodedEvent
decode_issuer none ev tag = none
decode_issuer (some []) ev tag = none
decode_issuer (some (c ∷ feed)) ev tag =
    decode_rwa_holder_event ev.topics ev.value (ev.closed_at / 1000) (c ∷ feed) tag

-- The answers of `getEvents` before their events are decoded. The loop of `tick` decodes an event and
-- then persists it; since decoding reads nothing but the event, `tick_raw` decodes first.
pub data RawAnswer : Type 0 where
  raw_page : (events : List RawEvent) (cursor : Option Text) (latest_ledger : ℕ) → RawAnswer
  raw_failure : (min_ledger : Option ℕ) → RawAnswer

module _ (issuers : List (Text × Text)) where
  unfoldable pub decode : RawEvent → Option DecodedEvent
  unfolding decode_tag decode_rwa_holder_event
  decode ev = elim (tag_of ev.topics) [
    | none ↦ none
    | some tag ↦
        or_else_decode (decode_issuer (feed_of issuers ev.contract_id) ev tag)
          (decode_tag ev.topics ev.value (ev.closed_at / 1000) tag ev.tx_hash)
  ]

  unfoldable pub event_of : RawEvent → Event
  unfolding decode
  event_of ev = record { ledger = ev.ledger; decoded = decode ev }

  unfoldable pub answer_of : RawAnswer → Answer
  unfolding event_of
  answer_of (raw_page events cursor latest) = page (map event_of events) cursor latest
  answer_of (raw_failure m) = failure m

  unfoldable pub tick_raw :
      (limit lookback latest : ℕ) → List RawAnswer → Store → Option (Store × List DecodedEvent)
  unfolding answer_of
  tick_raw limit lookback latest answers s = tick limit lookback latest (map answer_of answers) s

-- `contractFilters`: the ids that are not empty, five to a filter. The loop advances by five: the number
-- of ids is enough fuel.
abbrev pub chunks : ℕ → List Text → List (List Text)
chunks fuel [] = []
chunks zero (x ∷ xs) = []
chunks (suc fuel) (x ∷ xs) = take 5 (x ∷ xs) ∷ chunks fuel (drop 5 (x ∷ xs))

unfoldable pub contract_filters : List Text → List (Text × Text) → List (List Text)
contract_filters fixed issuers =
    let ids =
      filter (λ (c : Text). ltb 0 (length c)) (fixed ++ map (λ (p : Text × Text). p.0) issuers) in
    chunks (length ids) ids
