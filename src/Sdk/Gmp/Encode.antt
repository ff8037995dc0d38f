-- ===== src/Sdk/Gmp/Encode.antt =====
-- The round trip of the deposit payload (packages/sdk/src/bridge/axelar-gmp.ts).
use stellax.Base.{
  ℕ, ◌^◌, ◌<◌, ◌≡◌, refl, sym, ap, ◌∙◌, true, false, Option, some, List, [], ◌∷◌, ◌++◌, append-nil,
  arith, ltb, length, length-append, take, All,
}
use stellax.Sdk.Js.{Text, parse_int_16}
use stellax.Sdk.Gmp.{DecodedBridgeDeposit, decode_clean, slice, is_one, decode_deposit_payload}
use stellax.Sdk.Gmp.Bytes.{
  hex_bytes, be_bytes, encode, IsChar, hex_to_string-hex_bytes, length-hex_bytes,
  big_int_hex-be_bytes, length-be_bytes, take_prefix, drop_prefix,
}

action_is_one : is_one (parse_int_16 (hex_bytes (0 ∷ 0 ∷ 0 ∷ 1 ∷ []))) ≡ true
unfolding parse_int_16
action_is_one = refl

module _ (r32 r24 p8 p16 : List ℕ) (amount : ℕ) (l32 : length r32 ≡ 32) (l24 : length r24 ≡ 24)
    (l8 : length p8 ≡ 8) (l16 : length p16 ≡ 16) where
  abbrev tail16 : Text
  tail16 = hex_bytes p16 ++ hex_bytes (be_bytes 16 amount)

  abbrev tail8 : Text
  tail8 = hex_bytes p8 ++ tail16

  abbrev tail24 : Text
  tail24 = hex_bytes r24 ++ tail8

  length-encode : length (encode r32 r24 p8 p16 amount) ≡ 200
  length-encode = omega (
    arith,
    length-append (hex_bytes r32) tail24,
    length-append (hex_bytes r24) tail8,
    length-append (hex_bytes p8) tail16,
    length-append (hex_bytes p16) (hex_bytes (be_bytes 16 amount)),
    length-hex_bytes r32,
    length-hex_bytes r24,
    length-hex_bytes p8,
    length-hex_bytes p16,
    length-hex_bytes (be_bytes 16 amount),
    length-be_bytes 16 amount,
  )

  field_1 : slice 8 72 (encode r32 r24 p8 p16 amount) ≡ hex_bytes r32
  field_1 = take_prefix (hex_bytes r32) tail24 64 (omega (arith, length-hex_bytes r32))

  field_2 : slice 72 120 (encode r32 r24 p8 p16 amount) ≡ hex_bytes r24
  field_2 =
      ap (take 48) (drop_prefix (hex_bytes r32) tail24 64 0 (omega (arith, length-hex_bytes r32)))
      ∙ take_prefix (hex_bytes r24) tail8 48 (omega (arith, length-hex_bytes r24))

  field_3 : slice 168 200 (encode r32 r24 p8 p16 amount) ≡ hex_bytes (be_bytes 16 amount)
  field_3 =
      let amounts = hex_bytes (be_bytes 16 amount) in
      ap (take 32) (
        drop_prefix (hex_bytes r32) tail24 64 96 (omega (arith, length-hex_bytes r32))
        ∙ drop_prefix (hex_bytes r24) tail8 48 48 (omega (arith, length-hex_bytes r24))
        ∙ drop_prefix (hex_bytes p8) tail16 16 32 (omega (arith, length-hex_bytes p8))
        ∙ drop_prefix (hex_bytes p16) amounts 32 0 (omega (arith, length-hex_bytes p16)))
      ∙ ap (take 32) (sym (append-nil amounts))
      ∙ take_prefix amounts [] 32
          (omega (arith, length-hex_bytes (be_bytes 16 amount), length-be_bytes 16 amount))

  decode_clean-encode :
      All IsChar r32
      → All IsChar r24
      → amount < 2 ^ 128
      → decode_clean (encode r32 r24 p8 p16 amount)
        ≡ some (record { stellar_recipient = r32 ++ r24; amount = amount })
  unfolding decode_clean
  decode_clean-encode c32 c24 bound =
      let long : ltb (length (encode r32 r24 p8 p16 amount)) 200 ≡ false = rw length-encode refl in
      rw long (
        rw action_is_one (
          rw field_3 (
            rw (big_int_hex-be_bytes 15 amount bound) (
              rw (
                field_1,
                field_2,
                hex_to_string-hex_bytes r32 c32,
                hex_to_string-hex_bytes r24 c24,
              )))))

  -- The decoder reads back what the bridge writes, with or without the prefix "0x": for a recipient of 56
  -- non-zero bytes and an amount below 2 ^ 128, whatever the padding bytes are, it returns the recipient's
  -- 56 characters and the amount.
  pub decode_deposit_payload-encode :
      All IsChar r32
      → All IsChar r24
      → amount < 2 ^ 128
      → let payload = encode r32 r24 p8 p16 amount in
        let decoded : Option DecodedBridgeDeposit =
          some (record { stellar_recipient = r32 ++ r24; amount = amount }) in
        (decode_deposit_payload payload ≡ decoded)
        × (decode_deposit_payload (b'0' ∷ b'x' ∷ payload) ≡ decoded)
  unfolding decode_deposit_payload
  decode_deposit_payload-encode c32 c24 bound =
      (decode_clean-encode c32 c24 bound, decode_clean-encode c32 c24 bound)
