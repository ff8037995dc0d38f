-- ===== src/Sdk/Clob/Typed.antt =====
-- The type of the value that `encodeLimitOrder` makes.
use Prim.Native.String.{String}
use stellax.Base.{
  ◌≡◌, refl, subst, Option, none, some, List, [], ◌∷◌, length, ◌==◌, ==_iff, absent, some_eq,
  Option-cases, Bool-cases, inl, inr,
}
use stellax.Base.Int.{pos}
use stellax.Sdk.Xdr.{
  Xdr, Ty, no_ty, Fields, field, no_field, Variants, variant, no_variant, here, Entries,
}
use stellax.Sdk.ScVal.{enum_unit}
use stellax.Sdk.ScVal.Typed.{
  Arg, u32-Typed, u64-Typed, i128-Typed, bool-Typed, bytes_n-Typed, address-Typed,
}
use stellax.Sdk.Client.{ContractClient}
use stellax.Sdk.Clob.Orders.{
  LimitOrderParams, sort_fields, order_fields, entries_of, encode_limit_order,
}

-- `OrderStatus` and `LimitOrder` of contracts/stellax-math/src/types.rs; the members of a struct are in
-- the order of their names
abbrev pub order_status : Variants
order_status =
    variant "Open" no_ty
      (variant "Filled" no_ty (variant "Cancelled" no_ty (variant "Expired" no_ty no_variant)))

abbrev pub limit_order_fields : Fields
limit_order_fields = field "expiry" Ty.u64 (
    field "filled_size" Ty.i128 (
      field "is_long" Ty.bool (
        field "leverage" Ty.u32 (
          field "market_id" Ty.u32 (
            field "nonce" Ty.u64 (
              field "order_id" Ty.u64 (
                field "price" Ty.i128 (
                  field "signature" (Ty.bytes_n 64) (
                    field "size" Ty.i128 (
                      field "status" (Ty.union order_status)
                        (field "trader" Ty.address no_field)))))))))))

abbrev pub limit_order : Ty
limit_order = Ty.struct limit_order_fields

-- the fields have the types, in their order
abbrev FieldsFit : (x : Xdr) → List (String × Option x.ScVal) → Fields → Type 0
FieldsFit x [] no_field = Unit {0}
FieldsFit x [] (field k t fs) = ⊥
FieldsFit x (o ∷ os) no_field = ⊥
FieldsFit x ((j, o) ∷ os) (field k t fs) = (j ≡ k) × Arg x o t × FieldsFit x os fs

entries_of-Entries :
    (x : Xdr) (os : List (String × Option x.ScVal)) (fs : Fields)
    → FieldsFit x os fs
    → (es : List (String × x.ScVal)) → entries_of os ≡ some es
    → Entries x.HasType es fs
entries_of-Entries x [] no_field h es e = subst (λ us. Entries x.HasType us no_field) (some_eq e) tt
entries_of-Entries x [] (field k t fs) h es e = absurd h
entries_of-Entries x (o ∷ os) no_field h es e = absurd h
entries_of-Entries x ((j, none) ∷ os) (field k t fs) h es e = absurd (absent e)
entries_of-Entries x ((j, some v) ∷ os) (field k t fs) (p, a, h) es e =
    elim (Option-cases (entries_of os)) [
      | inl q ↦ absurd (absent (rw q at e))
      | inr (us, q) ↦
          subst (λ ws. Entries x.HasType ws (field k t fs)) (some_eq (rw q at e))
            (p, a v refl, entries_of-Entries x os fs h us q)
    ]

status-Typed : (x : Xdr) → Arg x (enum_unit x "Open") (Ty.union order_status)
unfolding enum_unit
status-Typed x v e =
    subst (λ w. x.HasType w (Ty.union order_status)) (some_eq e)
      (x.union_typed "Open" [] no_ty order_status (here _) tt)

-- an encoded order is a map of the sorted fields, and its signature has 64 bytes
pub encode_limit_order-parts :
    (c : ContractClient) (o : LimitOrderParams) (v : c.xdr.ScVal)
    → encode_limit_order c o ≡ some v
    → (length o.signature ≡ 64)
      × (es : List (String × c.xdr.ScVal)) × (entries_of (sort_fields (order_fields c o)) ≡ some es)
      × (c.xdr.scv_map es ≡ v)
unfolding encode_limit_order
encode_limit_order-parts c o v e = elim (Bool-cases (length o.signature == 64)) [
  | inr p ↦ absurd (absent (rw p at e))
  | inl p ↦ elim (Option-cases (entries_of (sort_fields (order_fields c o)))) [
    | inl q ↦ absurd (absent (rw (p, q) at e))
    | inr (es, q) ↦ ((==_iff _ _).0 p, es, q, some_eq (rw (p, q) at e))
  ]
]

-- An order that is encoded is a `LimitOrder` of the contract.
pub encode_limit_order-Typed :
    (c : ContractClient) (o : LimitOrderParams) → Arg c.xdr (encode_limit_order c o) limit_order
encode_limit_order-Typed c o v e =
    let (p, es, q, r) = encode_limit_order-parts c o v e in
    subst (λ w. c.xdr.HasType w limit_order) r
      (c.xdr.struct_typed es limit_order_fields (
        entries_of-Entries c.xdr (sort_fields (order_fields c o)) limit_order_fields
          (
            refl,
            u64-Typed c.xdr o.expiry,
            (
              refl,
              i128-Typed c.xdr (pos 0),
              (
                refl,
                bool-Typed c.xdr o.is_long,
                (
                  refl,
                  u32-Typed c.xdr o.leverage,
                  (
                    refl,
                    u32-Typed c.xdr o.market_id,
                    (
                      refl,
                      u64-Typed c.xdr o.nonce,
                      (
                        refl,
                        u64-Typed c.xdr (pos 0),
                        (
                          refl,
                          i128-Typed c.xdr o.price,
                          (
                            refl,
                            bytes_n-Typed c.xdr 64 o.signature p,
                            (
                              refl,
                              i128-Typed c.xdr o.size,
                              (refl, status-Typed c.xdr, (refl, address-Typed c.xdr o.trader, tt)),
                            ),
                          ),
                        ),
                      ),
                    ),
                  ),
                ),
              ),
            ),
          )
          es q))
