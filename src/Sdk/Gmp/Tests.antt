-- ===== src/Sdk/Gmp/Tests.antt =====
-- The decoder at a deposit of 5 USDC for a recipient of 56 letters.
use stellax.Base.{ℕ, zero, suc, ◌≡◌, refl, Option, none, some, List, [], ◌∷◌, ◌++◌, arith, All}
use stellax.Sdk.Js.{Text, parse_int_16, big_int_hex, from_char_code}
use stellax.Sdk.Gmp.{hex_to_string, DecodedBridgeDeposit, decode_clean, decode_deposit_payload}
use stellax.Sdk.Gmp.Bytes.{encode, IsChar}
use stellax.Sdk.Gmp.Encode.{decode_deposit_payload-encode}

abbrev copies : ℕ → ℕ → List ℕ
copies zero b = []
copies (suc n) b = b ∷ copies n b

abbrev payload : Text
payload = encode (b'G' ∷ copies 31 b'A') (copies 24 b'B') (copies 8 0) (copies 16 0) 5_000_000

abbrev deposit : Option DecodedBridgeDeposit
deposit =
    some
      (record { stellar_recipient = (b'G' ∷ copies 31 b'A') ++ copies 24 b'B'; amount = 5_000_000 })

decodes : decode_deposit_payload payload ≡ deposit
unfolding decode_deposit_payload decode_clean parse_int_16 big_int_hex from_char_code hex_to_string
decodes = refl

refuses_short : decode_deposit_payload (b'0' ∷ b'x' ∷ b'0' ∷ []) ≡ none
unfolding decode_deposit_payload decode_clean
refuses_short = refl

copies-IsChar : (n b : ℕ) → IsChar b → All IsChar (copies n b)
copies-IsChar zero b h = tt
copies-IsChar (suc n) b h = (h, copies-IsChar n b h)

decode_deposit_payload-encode_example :
    (decode_deposit_payload payload ≡ deposit)
    × (decode_deposit_payload (b'0' ∷ b'x' ∷ payload) ≡ deposit)
decode_deposit_payload-encode_example =
    decode_deposit_payload-encode (b'G' ∷ copies 31 b'A') (copies 24 b'B') (copies 8 0)
      (copies 16 0) 5_000_000 refl refl refl refl
      ((omega arith, omega arith), copies-IsChar 31 b'A' (omega arith, omega arith))
      (copies-IsChar 24 b'B' (omega arith, omega arith)) (omega arith)
