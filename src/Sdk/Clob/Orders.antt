-- ===== src/Sdk/Clob/Orders.antt =====
-- Limit orders as values of the CLOB contract (packages/sdk/src/clients/clob.ts, `encodeLimitOrder` and
-- the decoders).
use Prim.Native.String.{String, compare}
use stellax.Base.{ℕ, Bool, Option, none, some, List, [], ◌∷◌, Ordering, length, ◌==◌, if◌then◌else◌}
use stellax.Base.Int.{ℤ, pos}
use stellax.Sdk.Native.{
  Native, Number, item, text, array, ◌>>=◌, big_int, to_number, to_text, to_boolean, to_bytes, get,
}
use stellax.Sdk.Xdr.{Xdr}
use stellax.Sdk.ScVal.{u32, u64, i128, bool, bytes_n, enum_unit, address, raw}
use stellax.Sdk.Client.{ContractClient}

-- what `placeOrder` takes
pub record LimitOrderParams : Type 0 where
  pub trader : String
  pub market_id : ℤ
  pub size : ℤ
  pub price : ℤ
  pub is_long : Bool
  pub leverage : ℤ
  pub expiry : ℤ
  pub nonce : ℤ
  pub signature : List ℕ

pub record LimitOrder : Type 0 where
  pub order_id : ℤ
  pub trader : String
  pub market_id : Number
  pub size : ℤ
  pub price : ℤ
  pub is_long : Bool
  pub leverage : Number
  pub expiry : ℤ
  pub nonce : ℤ
  pub signature : List ℕ
  pub status : String
  pub filled_size : ℤ

pub record ClobConfig : Type 0 where
  pub admin : String
  pub perp_engine : String
  pub vault : String
  pub keeper : String

-- `fields.sort(([a], [b]) => (a < b ? -1 : a > b ? 1 : 0))`
module _ {V : Type 0} where
  abbrev pub insert : String × V → List (String × V) → List (String × V)
  insert f [] = f ∷ []
  insert (k, v) ((j, w) ∷ fs) =
      let later = (j, w) ∷ insert (k, v) fs in
      elim (compare k j) [ Ordering.gt ↦ later | other ↦ (k, v) ∷ (j, w) ∷ fs ]

  abbrev pub sort_fields : List (String × V) → List (String × V)
  sort_fields [] = []
  sort_fields (f ∷ fs) = insert f (sort_fields fs)

  -- the fields are encoded, unless one of them throws
  abbrev pub entries_of : List (String × Option V) → Option (List (String × V))
  entries_of [] = some []
  entries_of ((k, none) ∷ fs) = none
  entries_of ((k, some v) ∷ fs) = elim (entries_of fs) [
    | none ↦ none
    | some es ↦ some ((k, v) ∷ es)
  ]

module _ (c : ContractClient) where
  open c use {xdr}

  abbrev pub order_fields : LimitOrderParams → List (String × Option xdr.ScVal)
  order_fields env =
      ("filled_size", i128 xdr (pos 0))
      ∷ ("expiry", u64 xdr env.expiry)
      ∷ ("is_long", bool xdr env.is_long)
      ∷ ("leverage", u32 xdr env.leverage)
      ∷ ("market_id", u32 xdr env.market_id)
      ∷ ("nonce", u64 xdr env.nonce)
      ∷ ("order_id", u64 xdr (pos 0))
      ∷ ("price", i128 xdr env.price)
      ∷ ("signature", bytes_n xdr env.signature)
      ∷ ("size", i128 xdr env.size)
      ∷ ("status", enum_unit xdr "Open")
      ∷ ("trader", address xdr env.trader)
      ∷ []

  -- A signature that has not 64 bytes throws, and so does a field that cannot be encoded.
  unfoldable pub encode_limit_order : LimitOrderParams → Option xdr.ScVal
  encode_limit_order env =
      let entries = entries_of (sort_fields (order_fields env)) in
      if length env.signature == 64 then entries >>= (λ es. some (xdr.scv_map es)) else none

-- the status of an order: a text, or the head of an array that is not empty
abbrev pub status_of : Native → Option String
status_of (text s) = some s
status_of (array (item n rest)) = to_text n
status_of other = some "Open"

module _ (x : Xdr) where
  open x use {ScVal}

  unfoldable pub decode_limit_order : Option ScVal → Option LimitOrder
  unfolding raw
  decode_limit_order v = do
    let o = raw x v
    status ← status_of (get o "status")
    order_id ← big_int (get o "order_id")
    trader ← to_text (get o "trader")
    market_id ← to_number (get o "market_id")
    size ← big_int (get o "size")
    price ← big_int (get o "price")
    let is_long = to_boolean (get o "is_long")
    leverage ← to_number (get o "leverage")
    expiry ← big_int (get o "expiry")
    nonce ← big_int (get o "nonce")
    signature ← to_bytes (get o "signature")
    filled_size ← big_int (get o "filled_size")
    some (record {
      order_id = order_id;
      trader = trader;
      market_id = market_id;
      size = size;
      price = price;
      is_long = is_long;
      leverage = leverage;
      expiry = expiry;
      nonce = nonce;
      signature = signature;
      status = status;
      filled_size = filled_size;
    })

  unfoldable pub decode_clob_config : Option ScVal → Option ClobConfig
  unfolding raw
  decode_clob_config v = do
    let o = raw x v
    admin ← to_text (get o "admin")
    perp_engine ← to_text (get o "perp_engine")
    vault ← to_text (get o "vault")
    keeper ← to_text (get o "keeper")
    some (record { admin = admin; perp_engine = perp_engine; vault = vault; keeper = keeper })
