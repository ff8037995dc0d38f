-- ===== src/Indexer/Decode/Published.antt =====
-- What the contracts publish (contracts/stellax-{perp-engine,risk,bridge,clob,oracle}/src/lib.rs), and how
-- the decoders of packages/indexer/src/watcher.ts read it.
use stellax.Base.{ℕ, ◌≡◌, refl, Bool, false, none, some, List, [], ◌∷◌, ◌/◌}
use stellax.Base.Int.{ℤ, pos}
use stellax.Indexer.Rows.{
  Text, same_text, to_upper_case, closed, modified, inbound, status_open, redstone, admin,
}
use stellax.Indexer.Watcher.{
  DecodedEvent, position_open, position_close, position_modify, liquidation, deposit, order_place,
  order_cancel, order_fill, oracle_price,
}
use stellax.Indexer.Decode.Values.{
  codes, Scalar, int, text, bool, bytes, to_string, Native, scalar, tuple, RawEvent,
}
use stellax.Indexer.Decode.{feed_of, decode}

-- the events that the decoders read as they are meant
pub data ContractEvent : Type 0 where
  posopen :
      (user : Text) (id market : ℕ) (size price : ℤ) (leverage : ℕ) (is_long : Bool) → ContractEvent
  posclose : (user : Text) (id : ℕ) (price pnl : ℤ) → ContractEvent
  liq : (user : Text) (id : ℕ) (price margin reward : ℤ) → ContractEvent
  ordplace : (trader : Text) (id market : ℕ) (size price : ℤ) (is_long : Bool) → ContractEvent
  ordcancel : (caller : Text) (id market : ℕ) → ContractEvent
  settled : (buy sell : ℕ) (fill_size fill_price : ℤ) (market : ℕ) → ContractEvent
  price_upd : (feed : Text) (price : ℤ) (stamp : ℕ) → ContractEvent
  price_adm : (feed : Text) (price : ℤ) (stamp : ℕ) → ContractEvent

abbrev nat : ℕ → Scalar
nat n = int (pos n)

abbrev pub topics_of : ContractEvent → List Scalar
topics_of (posopen user id market size price leverage is_long) =
    text (codes "posopen") ∷ text user ∷ nat id ∷ nat market ∷ []
topics_of (posclose user id price pnl) = text (codes "posclose") ∷ text user ∷ nat id ∷ []
topics_of (liq user id price margin reward) = text (codes "liq") ∷ text user ∷ nat id ∷ []
topics_of (ordplace trader id market size price is_long) =
    text (codes "ordplace") ∷ text trader ∷ nat id ∷ []
topics_of (ordcancel caller id market) = text (codes "ordcancel") ∷ text caller ∷ nat id ∷ []
topics_of (settled buy sell fill_size fill_price market) =
    text (codes "settled") ∷ nat buy ∷ nat sell ∷ []
topics_of (price_upd feed price stamp) = text (codes "price_upd") ∷ text feed ∷ []
topics_of (price_adm feed price stamp) = text (codes "price_adm") ∷ text feed ∷ []

abbrev pub value_of : ContractEvent → Native
value_of (posopen user id market size price leverage is_long) =
    tuple (int size ∷ int price ∷ nat leverage ∷ bool is_long ∷ [])
value_of (posclose user id price pnl) = tuple (int price ∷ int pnl ∷ [])
value_of (liq user id price margin reward) = tuple (int price ∷ int margin ∷ int reward ∷ [])
value_of (ordplace trader id market size price is_long) =
    tuple (nat market ∷ int size ∷ int price ∷ bool is_long ∷ [])
value_of (ordcancel caller id market) = scalar (nat market)
value_of (settled buy sell fill_size fill_price market) =
    tuple (int fill_size ∷ int fill_price ∷ nat market ∷ [])
value_of (price_upd feed price stamp) = tuple (int price ∷ nat stamp ∷ [])
value_of (price_adm feed price stamp) = tuple (int price ∷ nat stamp ∷ [])

-- what an event says to the indexer
abbrev pub meaning : (ts : ℕ) (tx : Text) → ContractEvent → DecodedEvent
meaning ts tx (posopen user id market size price leverage is_long) = position_open (record {
  position_id = id;
  user = user;
  market_id = market;
  is_long = is_long;
  size = size;
  entry_price = price;
  leverage = leverage;
  opened_at = ts;
  open_tx_hash = tx;
})
meaning ts tx (posclose user id price pnl) = position_close (record {
  user = user;
  position_id = id;
  market_id = 0;
  kind = closed;
  size = pos 0;
  price = price;
  pnl = some pnl;
  is_long = false;
  ts = ts;
  tx_hash = tx;
})
meaning ts tx (liq user id price margin reward) = liquidation (record {
  user = user;
  position_id = id;
  oracle_price = price;
  remaining_margin = margin;
  keeper_reward = reward;
  ts = ts;
  tx_hash = tx;
})
meaning ts tx (ordplace trader id market size price is_long) = order_place (record {
  order_id = id;
  trader = trader;
  market_id = market;
  is_long = is_long;
  price = price;
  size = size;
  filled_size = pos 0;
  status = status_open;
  placed_at = ts;
  updated_at = ts;
  place_tx_hash = tx;
})
meaning ts tx (ordcancel caller id market) = order_cancel id ts
meaning ts tx (settled buy sell fill_size fill_price market) = order_fill buy sell fill_size ts
meaning ts tx (price_upd feed price stamp) = oracle_price (record {
  feed = to_upper_case feed;
  price = price;
  package_timestamp = stamp;
  write_timestamp = ts;
  source = redstone;
  tx_hash = tx;
})
meaning ts tx (price_adm feed price stamp) = oracle_price (record {
  feed = to_upper_case feed;
  price = price;
  package_timestamp = stamp;
  write_timestamp = ts;
  source = admin;
  tx_hash = tx;
})

abbrev pub published_as :
    List Scalar → Native → (contract tx : Text) (ledger closed_at : ℕ) → RawEvent
published_as topics value contract tx ledger closed_at = record {
  contract_id = contract;
  ledger = ledger;
  topics = topics;
  value = value;
  closed_at = closed_at;
  tx_hash = tx;
}

abbrev pub published : (contract tx : Text) (ledger closed_at : ℕ) → ContractEvent → RawEvent
published contract tx ledger closed_at e =
    published_as (topics_of e) (value_of e) contract tx ledger closed_at

-- the bridge's deposit: the amount without the fee, the fee and the recipient's address
abbrev pub deposit_published :
    (net fee : ℤ) (addr_bytes : List ℕ) → (contract tx : Text) (ledger closed_at : ℕ) → RawEvent
deposit_published net fee addr_bytes =
    published_as (text (codes "dep_in") ∷ []) (tuple (int net ∷ int fee ∷ bytes addr_bytes ∷ []))

-- the engine's change of a position's margin
abbrev pub modify_published :
    (user : Text) (id : ℕ) (margin : ℤ) → (contract tx : Text) (ledger closed_at : ℕ) → RawEvent
modify_published user id margin =
    published_as (text (codes "posmod") ∷ text user ∷ nat id ∷ []) (scalar (int margin))

-- A deposit from the bridge and a change of a margin are misread, where the id of the contract is none of
-- an RWA issuer: the row of the deposit has the digits of its amount as the user and the fee as the
-- amount, and the row of the change has the price 0, whatever the margin is.
pub decode-misread :
    (issuers : List (Text × Text)) (contract tx user : Text) (ledger closed_at id : ℕ)
    (net fee margin : ℤ) (addr_bytes : List ℕ)
    → feed_of issuers contract ≡ none
    → (decode issuers (deposit_published net fee addr_bytes contract tx ledger closed_at)
        ≡ some (
            deposit (record {
              direction = inbound;
              user = to_string net;
              amount = fee;
              dest_chain = none;
              ts = closed_at / 1000;
              tx_hash = tx;
            })))
      × (decode issuers (modify_published user id margin contract tx ledger closed_at)
          ≡ some (
              position_modify (record {
                user = user;
                position_id = id;
                market_id = 0;
                kind = modified;
                size = pos 0;
                price = pos 0;
                pnl = none;
                is_long = false;
                ts = closed_at / 1000;
                tx_hash = tx;
              })))
unfolding decode same_text
decode-misread issuers contract tx user ledger closed_at id net fee margin addr_bytes h =
    (rw h refl, rw h refl)
