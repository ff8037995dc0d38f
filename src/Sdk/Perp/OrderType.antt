-- ===== src/Sdk/Perp/OrderType.antt =====
-- An order type is read back as it was encoded.
use Prim.Native.String.{String}
use stellax.Base.{
  ◌≡◌, refl, sym, ap, ◌∙◌, Option, some, List, [], ◌∷◌, absent, some_eq, Option-cases, inl, inr,
}
use stellax.Base.Int.{ℤ}
use stellax.Sdk.Native.{big, text, array, item, no_item}
use stellax.Sdk.Xdr.{Scalar, natives}
use stellax.Sdk.ScVal.{all_of, i128}
use stellax.Sdk.Client.{ContractClient}
use stellax.Sdk.Perp.Orders.{
  OrderTypeVariant, market, limit, stop_loss, take_profit, trailing, tagged, encode_order_type,
  decode_order_type,
}

-- a tagged value is read as an array of the tag and the payload
tagged-native :
    (c : ContractClient) (k : String) (os : List (Option c.xdr.ScVal)) (v : c.xdr.ScVal)
    → tagged c k os ≡ some v
    → (vs : List c.xdr.ScVal) × (all_of os ≡ some vs)
      × (c.xdr.sc_val_to_native v ≡ array (item (text k) (natives c.xdr.sc_val_to_native vs)))
tagged-native c k os v e = elim (Option-cases (all_of os)) [
  | inl q ↦ absurd (absent (rw (q, tagged) at e))
  | inr (vs, q) ↦ (
    vs,
    q,
    ap c.xdr.sc_val_to_native (sym (some_eq (rw (q, tagged) at e)))
        ∙ c.xdr.native_vec (c.xdr.scv_symbol k ∷ vs)
        ∙ ap (λ n. array (item n (natives c.xdr.sc_val_to_native vs))) (c.xdr.native_symbol k),
  )
]

module _ (c : ContractClient) where
  -- a list of one encoded integer
  one-native :
      (k : String) (p : ℤ) (v : c.xdr.ScVal)
      → tagged c k (i128 c.xdr p ∷ []) ≡ some v
      → c.xdr.sc_val_to_native v ≡ array (item (text k) (item (big p) no_item))
  unfolding i128
  one-native k p v e = elim (Option-cases (i128 c.xdr p)) [
    | inl q ↦ absurd (absent (rw (q, tagged) at e))
    | inr (w, q) ↦
        let (vs, r, n) = tagged-native c k (i128 c.xdr p ∷ []) v e in
        let g = ap (natives c.xdr.sc_val_to_native) (sym (some_eq (rw q at r))) in
        n
        ∙ ap (λ ns. array (item (text k) ns)) g
        ∙ ap (λ m. array (item (text k) (item m no_item)))
            (c.xdr.native_scalar (big p) Scalar.i128 w q)
  ]

  two-native :
      (k : String) (p s : ℤ) (v : c.xdr.ScVal)
      → tagged c k (i128 c.xdr p ∷ i128 c.xdr s ∷ []) ≡ some v
      → c.xdr.sc_val_to_native v ≡ array (item (text k) (item (big p) (item (big s) no_item)))
  unfolding i128
  two-native k p s v e = elim (Option-cases (i128 c.xdr p)) [
    | inl q ↦ absurd (absent (rw (q, tagged) at e))
    | inr (w, q) ↦ elim (Option-cases (i128 c.xdr s)) [
      | inl q' ↦ absurd (absent (rw (q, q', tagged) at e))
      | inr (w', q') ↦
          let (vs, r, n) = tagged-native c k (i128 c.xdr p ∷ i128 c.xdr s ∷ []) v e in
          let g = ap (natives c.xdr.sc_val_to_native) (sym (some_eq (rw (q, q') at r))) in
          n
          ∙ ap (λ ns. array (item (text k) ns)) g
          ∙ ap (λ m. array (item (text k) (item m (item (c.xdr.sc_val_to_native w') no_item))))
              (c.xdr.native_scalar (big p) Scalar.i128 w q)
          ∙ ap (λ m. array (item (text k) (item (big p) (item m no_item))))
              (c.xdr.native_scalar (big s) Scalar.i128 w' q')
    ]
  ]

  -- An order type that is encoded is decoded to itself.
  pub decode_order_type-encode :
      (t : OrderTypeVariant) (v : c.xdr.ScVal)
      → encode_order_type c t ≡ some v
      → decode_order_type (c.xdr.sc_val_to_native v) ≡ some t
  unfolding encode_order_type decode_order_type
  decode_order_type-encode market v e =
      let (vs, r, n) = tagged-native c "Market" [] v e in rw n refl
  decode_order_type-encode (limit p) v e = rw (one-native "Limit" p v e) refl
  decode_order_type-encode (stop_loss p) v e = rw (one-native "StopLoss" p v e) refl
  decode_order_type-encode (take_profit p) v e = rw (one-native "TakeProfit" p v e) refl
  decode_order_type-encode (trailing o a) v e = rw (two-native "Trailing" o a v e) refl
