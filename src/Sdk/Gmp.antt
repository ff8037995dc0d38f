-- ===== src/Sdk/Gmp.antt =====
-- The deposit payload of the EVM bridge (packages/sdk/src/bridge/axelar-gmp.ts).
pub mod Bytes
pub mod Encode
mod Tests
use stellax.Base.{
  ℕ, ◌+◌, ◌-◌, ◌≡◌, Bool, true, false, Option, none, some, List, [], ◌∷◌, ◌++◌, ltb, ◌==◌,
  if◌then◌else◌, length, take, drop,
}
use stellax.Base.Int.{ℤ, pos, negsuc}
use stellax.Sdk.Js.{Text, parse_int_16, big_int_hex, from_char_code}

-- `byte === 0`; NaN is not
abbrev pub is_zero_byte : Option ℤ → Bool
is_zero_byte none = false
is_zero_byte (some (pos n)) = n == 0
is_zero_byte (some (negsuc n)) = false

-- `hexToString`: two digits at a time, a single one at the end
unfoldable pub hex_to_string : Text → Text
hex_to_string [] = []
hex_to_string (a ∷ []) =
    let byte = parse_int_16 (a ∷ []) in if is_zero_byte byte then [] else from_char_code byte ∷ []
hex_to_string (a ∷ b ∷ s) =
    let byte = parse_int_16 (a ∷ b ∷ []) in
    let rest = hex_to_string s in if is_zero_byte byte then [] else from_char_code byte ∷ rest

pub record DecodedBridgeDeposit : Type 0 where
  pub stellar_recipient : Text
  pub amount : ℕ

-- `hex.startsWith("0x") ? hex.slice(2) : hex`
abbrev pub strip_0x : Text → Text
strip_0x [] = []
strip_0x (a ∷ []) = a ∷ []
strip_0x (a ∷ b ∷ s) = if a == b'0' then (if b == b'x' then s else a ∷ b ∷ s) else a ∷ b ∷ s

-- `s.slice(i, j)` for i ≤ j
abbrev pub slice : ℕ → ℕ → Text → Text
slice i j s = take (j - i) (drop i s)

abbrev pub is_one : Option ℤ → Bool
is_one none = false
is_one (some (pos n)) = n == 1
is_one (some (negsuc n)) = false

unfoldable pub decode_clean : Text → Option DecodedBridgeDeposit
decode_clean clean =
    if ltb (length clean) 200
    then none
    else if is_one (parse_int_16 (slice 0 8 clean))
    then elim (big_int_hex (slice 168 200 clean)) [
      | none ↦ none
      | some amount ↦ some (record {
        stellar_recipient = hex_to_string (slice 8 72 clean) ++ hex_to_string (slice 72 120 clean);
        amount = amount;
      })
    ]
    else none

unfoldable pub decode_deposit_payload : Text → Option DecodedBridgeDeposit
decode_deposit_payload hex = decode_clean (strip_0x hex)
