-- ===== src/Frontend/Events.antt =====
-- The readers of close and liquidation events (packages/frontend/src/stellar/parseCloseEvents.ts). The
-- events are those that `getEvents` returns; an accessor of an ScVal throws on another arm of the union.
pub mod Read
mod Tests
use stellax.Base.{
  ℕ, zero, suc, ◌+◌, ◌-◌, ◌*◌, ◌%◌, ◌^◌, ◌≡◌, Bool, true, false, ◌&&◌, Option, none, some, List, [],
  ◌∷◌, ◌==◌, if◌then◌else◌, find,
}
use stellax.Base.Int.{ℤ, pos, negsuc, neg}
use stellax.Indexer.Rows.{Text, same_text}

pub data ScVal : Type 0 where
  sc_symbol : Text → ScVal
  sc_u64 : ℕ → ScVal
  sc_i128 : (hi : ℤ) (lo : ℕ) → ScVal
  sc_address : Text → ScVal
  sc_other : ScVal

-- An event's value: one of these, or a vector of them (`vec()` may be null).
pub data Value : Type 0 where
  single : ScVal → Value
  vector : Option (List ScVal) → Value

pub record ChainEvent : Type 0 where
  pub contract_id : Text
  pub topic : List ScVal
  pub value : Value
  pub tx_hash : Text

-- `decodeI128`; `none` where `i128()` throws. The operands of each `|` share no bit: it is a sum.
unfoldable pub decode_i128 : ScVal → Option ℤ
decode_i128 (sc_i128 (pos hi) lo_raw) = let lo = lo_raw % 2 ^ 64 in some (pos (hi * 2 ^ 64 + lo))
decode_i128 (sc_i128 (negsuc abs_hi) lo_raw) =
    let lo = lo_raw % 2 ^ 64 in
    let abs_lo = if lo == 0 then 0 else (2 ^ 64 - lo) % 2 ^ 64 in
    some (neg (pos ((abs_hi + (if lo == 0 then 0 else 1)) * 2 ^ 64 + abs_lo)))
decode_i128 (sc_symbol s) = none
decode_i128 (sc_u64 n) = none
decode_i128 (sc_address a) = none
decode_i128 sc_other = none

abbrev pub topic_symbol : ScVal → Option Text
topic_symbol (sc_symbol s) = some s
topic_symbol (sc_u64 n) = none
topic_symbol (sc_i128 hi lo) = none
topic_symbol (sc_address a) = none
topic_symbol sc_other = none

abbrev pub is_symbol : Text → ScVal → Bool
is_symbol name v = elim (topic_symbol v) [ none ↦ false | some s ↦ same_text s name ]

abbrev is_position : ℕ → ScVal → Bool
is_position id (sc_u64 n) = n == id
is_position id (sc_symbol s) = false
is_position id (sc_i128 hi lo) = false
is_position id (sc_address a) = false
is_position id sc_other = false

abbrev pub posclose : Text
posclose = b'p' ∷ b'o' ∷ b's' ∷ b'c' ∷ b'l' ∷ b'o' ∷ b's' ∷ b'e' ∷ []

abbrev pub movebal : Text
movebal = b'm' ∷ b'o' ∷ b'v' ∷ b'e' ∷ b'b' ∷ b'a' ∷ b'l' ∷ []

abbrev pub liq : Text
liq = b'l' ∷ b'i' ∷ b'q' ∷ []

-- the guards of the first loop: the position is compared only where there are three topics
abbrev close_topics : ℕ → List ScVal → Bool
close_topics id [] = false
close_topics id (tag ∷ []) = is_symbol posclose tag
close_topics id (tag ∷ user ∷ []) = is_symbol posclose tag
close_topics id (tag ∷ user ∷ position ∷ more) = is_symbol posclose tag && is_position id position

abbrev pub is_close : ℕ → ChainEvent → Bool
is_close id ev = close_topics id ev.topic

-- the guards of the second loop
abbrev pub fee_topics : List ScVal → Bool
fee_topics [] = false
fee_topics (tag ∷ more) = is_symbol movebal tag

abbrev pub is_fee : Text → ChainEvent → Bool
is_fee tx ev = fee_topics ev.topic && same_text ev.tx_hash tx

-- the exit price and the net profit in the value of a close event; `none` where one stays undefined
unfoldable pub read_close : Value → Option (ℤ × ℤ)
unfolding decode_i128
read_close (single v) = none
read_close (vector none) = none
read_close (vector (some [])) = none
read_close (vector (some (a ∷ []))) = none
read_close (vector (some (a ∷ b ∷ more))) = elim (decode_i128 a) [
  | none ↦ none
  | some price ↦ elim (decode_i128 b) [ none ↦ none | some pnl ↦ some (price, pnl) ]
]

-- `ev.value` passed to `decodeI128` in a `try`
unfoldable pub read_fee : Value → Option ℤ
unfolding decode_i128
read_fee (single v) = decode_i128 v
read_fee (vector vs) = none

pub record CloseEventResult : Type 0 where
  pub exit_price : ℤ
  pub net_pnl : ℤ
  pub close_fee : ℤ

abbrev value_or_zero : Option ℤ → ℤ
value_or_zero none = pos 0
value_or_zero (some n) = n

-- the second loop: the first transfer of the same transaction
unfoldable pub close_fee_of : Text → List ChainEvent → ℤ
unfolding read_fee
close_fee_of tx events = elim (find (is_fee tx) events) [
  | none ↦ pos 0
  | some ev ↦ value_or_zero (read_fee ev.value)
]

-- a filter of `getEvents`: the contract and the first topic
pub record EventFilter : Type 0 where
  pub contract_id : Text
  pub topic : Text

-- `server.getEvents` for the ledgers asked; `none` where it throws
abbrev pub Server : Type 0
Server = List EventFilter → Option (List ChainEvent)

abbrev pub close_filters : Text → List EventFilter
close_filters perp_engine =
    record { contract_id = perp_engine; topic = posclose }
    ∷ record { contract_id = perp_engine; topic = movebal }
    ∷ []

-- what the two loops make of the events
unfoldable pub close_result : ℕ → List ChainEvent → Option CloseEventResult
unfolding read_close close_fee_of
close_result position_id events = elim (find (is_close position_id) events) [
  | none ↦ none
  | some ev ↦ elim (read_close ev.value) [
    | none ↦ none
    | some r ↦
        some
          (record { exit_price = r.0; net_pnl = r.1; close_fee = close_fee_of ev.tx_hash events })
  ]
]

-- `parseCloseEvents`
unfoldable pub parse_close_events : Server → Text → ℕ → Option CloseEventResult
unfolding close_result
parse_close_events server perp_engine position_id = elim (server (close_filters perp_engine)) [
  | none ↦ none
  | some events ↦ close_result position_id events
]

pub record LiqEventResult : Type 0 where
  pub position_id : ℕ
  pub oracle_price : ℤ
  pub remaining_margin : ℤ
  pub keeper_reward : ℤ
  pub tx_hash : Text

abbrev is_user : Text → ScVal → Bool
is_user user (sc_address a) = same_text a user
is_user user (sc_symbol s) = false
is_user user (sc_u64 n) = false
is_user user (sc_i128 hi lo) = false
is_user user sc_other = false

abbrev u64_of : ScVal → Option ℕ
u64_of (sc_u64 n) = some n
u64_of (sc_symbol s) = none
u64_of (sc_i128 hi lo) = none
u64_of (sc_address a) = none
u64_of sc_other = none

-- the position id of a liquidation of the user
abbrev liq_topics : Text → List ScVal → Option ℕ
liq_topics user [] = none
liq_topics user (tag ∷ []) = none
liq_topics user (tag ∷ address ∷ []) = none
liq_topics user (tag ∷ address ∷ position ∷ more) =
    if is_symbol liq tag && is_user user address then u64_of position else none

abbrev pub liquidated_position : Text → ChainEvent → Option ℕ
liquidated_position user ev = liq_topics user ev.topic

-- the three numbers, each zero from the first that throws on
unfoldable pub read_liq : Value → ℤ × ℤ × ℤ
unfolding decode_i128
read_liq (single v) = (pos 0, pos 0, pos 0)
read_liq (vector none) = (pos 0, pos 0, pos 0)
read_liq (vector (some [])) = (pos 0, pos 0, pos 0)
read_liq (vector (some (a ∷ []))) = (pos 0, pos 0, pos 0)
read_liq (vector (some (a ∷ b ∷ []))) = (pos 0, pos 0, pos 0)
read_liq (vector (some (a ∷ b ∷ c ∷ more))) = elim (decode_i128 a) [
  | none ↦ (pos 0, pos 0, pos 0)
  | some price ↦ elim (decode_i128 b) [
    | none ↦ (price, pos 0, pos 0)
    | some margin ↦ (price, margin, value_or_zero (decode_i128 c))
  ]
]

abbrev pub liq_result : ChainEvent → ℕ → LiqEventResult
liq_result ev id =
    let r = read_liq ev.value in
    record {
      position_id = id;
      oracle_price = r.0;
      remaining_margin = r.1;
      keeper_reward = r.2;
      tx_hash = ev.tx_hash;
    }

unfoldable pub collect_liq : Text → List ChainEvent → List LiqEventResult
unfolding read_liq
collect_liq user [] = []
collect_liq user (ev ∷ evs) =
    let rest = collect_liq user evs in
    elim (liquidated_position user ev) [ none ↦ rest | some id ↦ liq_result ev id ∷ rest ]

-- `parseLiqEventsForUser`
abbrev pub parse_liq_events_for_user : Text → Option (List ChainEvent) → List LiqEventResult
parse_liq_events_for_user user none = []
parse_liq_events_for_user user (some events) = collect_liq user events
