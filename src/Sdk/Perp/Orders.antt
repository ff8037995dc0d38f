-- ===== src/Sdk/Perp/Orders.antt =====
-- The order types of the perp engine and the structs that it returns (packages/sdk/src/clients/perp-engine.ts).
use Prim.Native.String.{String}
use package.text.Mathlib.Text.{◌==◌ as str_eq}
use stellax.Base.{ℕ, ◌-◌, ◌%◌, Option, none, some, List, [], ◌∷◌, ◌&&◌, ◌==◌, if◌then◌else◌}
use stellax.Base.Int.{ℤ, pos, negsuc}
use stellax.Sdk.Js.{Text, codes, parse_int_16}
use stellax.Sdk.Native.{Native, Natives, item, no_item, undefined, text, array, ◌>>=◌, big_int}
use stellax.Sdk.ScVal.{i128, bytes_n, all_of}
use stellax.Sdk.Client.{ContractClient}

-- a byte of a Uint8Array that is given `parseInt(…, 16)`; NaN becomes 0
abbrev pub byte_of : Option ℤ → ℕ
byte_of none = 0
byte_of (some (pos n)) = n % 256
byte_of (some (negsuc n)) = 255 - n % 256

-- two digits make a byte; an odd one at the end is left out
unfoldable pub hex_bytes : Text → List ℕ
hex_bytes [] = []
hex_bytes (a ∷ []) = []
hex_bytes (a ∷ b ∷ s) = byte_of (parse_int_16 (a ∷ b ∷ [])) ∷ hex_bytes s

-- `hex.replace(/^0x/, "")`
abbrev pub without_0x : Text → Text
without_0x (a ∷ b ∷ s) = if a == b'0' && b == b'x' then s else a ∷ b ∷ s
without_0x (a ∷ []) = a ∷ []
without_0x [] = []

pub data OrderTypeVariant : Type 0 where
  market : OrderTypeVariant
  limit stop_loss take_profit : (price : ℤ) → OrderTypeVariant
  trailing : (offset anchor : ℤ) → OrderTypeVariant

module _ (c : ContractClient) where
  open c use {xdr}

  unfoldable pub feed_id_to_bytes : String → Option xdr.ScVal
  unfolding hex_bytes
  feed_id_to_bytes hex = bytes_n xdr (hex_bytes (without_0x (codes hex)))

  -- `xdr.ScVal.scvVec([scvSymbol(kind), …])`
  abbrev pub tagged : String → List (Option xdr.ScVal) → Option xdr.ScVal
  tagged kind payload = elim (all_of payload) [
    | none ↦ none
    | some vs ↦ some (xdr.scv_vec (xdr.scv_symbol kind ∷ vs))
  ]

  unfoldable pub encode_order_type : OrderTypeVariant → Option xdr.ScVal
  encode_order_type market = tagged "Market" []
  encode_order_type (limit price) = tagged "Limit" (i128 xdr price ∷ [])
  encode_order_type (stop_loss price) = tagged "StopLoss" (i128 xdr price ∷ [])
  encode_order_type (take_profit price) = tagged "TakeProfit" (i128 xdr price ∷ [])
  encode_order_type (trailing offset anchor) =
      tagged "Trailing" (i128 xdr offset ∷ i128 xdr anchor ∷ [])

-- the first items of an array
abbrev pub first : Natives → Native
first no_item = undefined
first (item n rest) = n

abbrev pub rest_of : Natives → Natives
rest_of no_item = no_item
rest_of (item n rest) = rest

-- `switch (tag)`; no case leads to the market order below it
abbrev pub of_tag : String → Native → Native → Option OrderTypeVariant
of_tag tag payload payload2 =
    if str_eq tag "Market"
    then some market
    else if str_eq tag "Limit"
    then big_int payload >>= (λ price. some (limit price))
    else if str_eq tag "StopLoss"
    then big_int payload >>= (λ price. some (stop_loss price))
    else if str_eq tag "TakeProfit"
    then big_int payload >>= (λ price. some (take_profit price))
    else if str_eq tag "Trailing"
    then big_int payload
      >>= (λ offset. big_int payload2 >>= λ anchor. some (trailing offset anchor))
    else some market

abbrev pub of_tag_value : Native → Native → Native → Option OrderTypeVariant
of_tag_value (text tag) payload payload2 = of_tag tag payload payload2
of_tag_value other payload payload2 = some market

unfoldable pub decode_order_type : Native → Option OrderTypeVariant
decode_order_type (array ns) =
    of_tag_value (first ns) (first (rest_of ns)) (first (rest_of (rest_of ns)))
decode_order_type other = some market
