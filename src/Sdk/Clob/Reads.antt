-- ===== src/Sdk/Clob/Reads.antt =====
-- A limit order is read back as it was encoded.
use Prim.Native.String.{String}
use stellax.Base.{
  ℕ, ◌≡◌, refl, sym, ap, ◌∙◌, subst, Bool, Option, none, some, List, [], ◌∷◌, absent, some_eq,
  Option-cases, inl, inr,
}
use stellax.Base.Int.{ℤ, pos}
use stellax.Sdk.Native.{
  Native, int, item, no_item, number, big, text, bytes, bool as native_bool, array, members_of,
  object,
}
use stellax.Sdk.Xdr.{Xdr, Scalar, members}
use stellax.Sdk.ScVal.{u32, u64, i128, bool, bytes_n, enum_unit, address}
use stellax.Sdk.Client.{ContractClient}
use stellax.Sdk.Clob.Orders.{
  LimitOrderParams, sort_fields, order_fields, entries_of, encode_limit_order, decode_limit_order,
}
use stellax.Sdk.Clob.Typed.{encode_limit_order-parts}

-- what each field is read back as
abbrev Reads : (x : Xdr) → Option x.ScVal → Native → Type 0
Reads x o n = (v : x.ScVal) → o ≡ some v → x.sc_val_to_native v ≡ n

abbrev FieldsRead : (x : Xdr) → List (String × Option x.ScVal) → List (String × Native) → Type 0
FieldsRead x [] [] = Unit {0}
FieldsRead x [] (n ∷ ns) = ⊥
FieldsRead x (o ∷ os) [] = ⊥
FieldsRead x ((j, o) ∷ os) ((k, n) ∷ ns) = (j ≡ k) × Reads x o n × FieldsRead x os ns

members-entries_of :
    (x : Xdr) (os : List (String × Option x.ScVal)) (ns : List (String × Native))
    → FieldsRead x os ns
    → (es : List (String × x.ScVal)) → entries_of os ≡ some es
    → members x.sc_val_to_native es ≡ members_of ns
members-entries_of x [] [] h es e = ap (members x.sc_val_to_native) (sym (some_eq e))
members-entries_of x [] (n ∷ ns) h es e = absurd h
members-entries_of x (o ∷ os) [] h es e = absurd h
members-entries_of x ((j, none) ∷ os) ((k, n) ∷ ns) h es e = absurd (absent e)
members-entries_of x ((j, some v) ∷ os) ((k, n) ∷ ns) (p, a, h) es e =
    elim (Option-cases (entries_of os)) [
      | inl q ↦ absurd (absent (rw q at e))
      | inr (us, q) ↦
          rw (← some_eq (rw q at e))
            (rw p (rw (a v refl) (rw (members-entries_of x os ns h us q) refl)))
    ]

module _ (x : Xdr) where
  u64-native : (n : ℤ) → Reads x (u64 x n) (big n)
  unfolding u64
  u64-native n = x.native_scalar (big n) Scalar.u64

  i128-native : (n : ℤ) → Reads x (i128 x n) (big n)
  unfolding i128
  i128-native n = x.native_scalar (big n) Scalar.i128

  u32-native : (n : ℤ) → Reads x (u32 x n) (number n)
  unfolding u32
  u32-native n = x.native_scalar (number n) Scalar.u32

  bytes-native : (b : List ℕ) → Reads x (bytes_n x b) (bytes b)
  unfolding bytes_n
  bytes-native b = x.native_scalar (bytes b) Scalar.bytes

  bool-native : (b : Bool) → Reads x (bool x b) (native_bool b)
  unfolding bool
  bool-native b v e =
      subst (λ w. x.sc_val_to_native w ≡ native_bool b) (some_eq e) (x.native_bool b)

  address-native : (a : String) → Reads x (address x a) (text a)
  unfolding address
  address-native a = x.native_address a

  status-native : Reads x (enum_unit x "Open") (array (item (text "Open") no_item))
  unfolding enum_unit
  status-native v e =
      subst (λ w. x.sc_val_to_native w ≡ array (item (text "Open") no_item)) (some_eq e)
        (x.native_vec (x.scv_symbol "Open" ∷ [])
          ∙ ap (λ n. array (item n no_item)) (x.native_symbol "Open"))

-- An order that is placed is read back by `getOrder`'s decoder as it was given, open, with nothing filled
-- and the id 0.
pub decode_limit_order-encode :
    (c : ContractClient) (o : LimitOrderParams) (v : c.xdr.ScVal)
    → encode_limit_order c o ≡ some v
    → decode_limit_order c.xdr (some v)
      ≡ some (record {
        order_id = pos 0;
        trader = o.trader;
        market_id = int o.market_id;
        size = o.size;
        price = o.price;
        is_long = o.is_long;
        leverage = int o.leverage;
        expiry = o.expiry;
        nonce = o.nonce;
        signature = o.signature;
        status = "Open";
        filled_size = pos 0;
      })
unfolding decode_limit_order
decode_limit_order-encode c o v e =
    let (p, es, q, r) = encode_limit_order-parts c o v e in
    let h =
      members-entries_of c.xdr (sort_fields (order_fields c o))
        (("expiry", big o.expiry)
          ∷ ("filled_size", big (pos 0))
          ∷ ("is_long", native_bool o.is_long)
          ∷ ("leverage", number o.leverage)
          ∷ ("market_id", number o.market_id)
          ∷ ("nonce", big o.nonce)
          ∷ ("order_id", big (pos 0))
          ∷ ("price", big o.price)
          ∷ ("signature", bytes o.signature)
          ∷ ("size", big o.size)
          ∷ ("status", array (item (text "Open") no_item))
          ∷ ("trader", text o.trader)
          ∷ [])
        (
          refl,
          u64-native c.xdr o.expiry,
          (
            refl,
            i128-native c.xdr (pos 0),
            (
              refl,
              bool-native c.xdr o.is_long,
              (
                refl,
                u32-native c.xdr o.leverage,
                (
                  refl,
                  u32-native c.xdr o.market_id,
                  (
                    refl,
                    u64-native c.xdr o.nonce,
                    (
                      refl,
                      u64-native c.xdr (pos 0),
                      (
                        refl,
                        i128-native c.xdr o.price,
                        (
                          refl,
                          bytes-native c.xdr o.signature,
                          (
                            refl,
                            i128-native c.xdr o.size,
                            (refl, status-native c.xdr, (refl, address-native c.xdr o.trader, tt)),
                          ),
                        ),
                      ),
                    ),
                  ),
                ),
              ),
            ),
          ),
        )
        es q in
    let g = ap c.xdr.sc_val_to_native (sym r) ∙ c.xdr.native_map es ∙ ap object h in rw g refl
