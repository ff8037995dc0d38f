-- ===== src/Sdk/Perp/Typed.antt =====
-- The type of the union that `encodeOrderType` makes.
use Prim.Native.String.{String}
use stellax.Base.{Option, List, [], ◌∷◌, absent, some_eq, subst, Option-cases, inl, inr}
use stellax.Sdk.Xdr.{Ty, Tys, ty, no_ty, Variants, variant, no_variant, Variant, here, there}
use stellax.Sdk.ScVal.{all_of, i128}
use stellax.Sdk.ScVal.Typed.{Arg, i128-Typed}
use stellax.Sdk.Client.{ContractClient}
use stellax.Sdk.Client.Conforms.{Args, all_of-Values}
use stellax.Sdk.Perp.Orders.{
  OrderTypeVariant, market, limit, stop_loss, take_profit, trailing, tagged, encode_order_type,
}

-- `OrderType` of contracts/stellax-perp-engine/src/lib.rs
abbrev pub order_variants : Variants
order_variants = variant "Market" no_ty (
    variant "Limit" (ty Ty.i128 no_ty) (
      variant "StopLoss" (ty Ty.i128 no_ty) (
        variant "TakeProfit" (ty Ty.i128 no_ty)
          (variant "Trailing" (ty Ty.i128 (ty Ty.i128 no_ty)) no_variant))))

abbrev pub order_type : Ty
order_type = Ty.union order_variants

tagged-Typed :
    (c : ContractClient) (k : String) (os : List (Option c.xdr.ScVal)) (ts : Tys) (us : Variants)
    → Variant k ts us
    → Args c.xdr os ts
    → Arg c.xdr (tagged c k os) (Ty.union us)
tagged-Typed c k os ts us w h v e = elim (Option-cases (all_of os)) [
  | inl q ↦ absurd (absent (rw (q, tagged) at e))
  | inr (vs, q) ↦
      subst (λ u. c.xdr.HasType u (Ty.union us)) (some_eq (rw (q, tagged) at e))
        (c.xdr.union_typed k vs ts us w (all_of-Values c.xdr os ts h vs q))
]

-- Whatever the order type, what it is encoded to is a value of the contract's `OrderType`.
pub encode_order_type-Typed :
    (c : ContractClient) (t : OrderTypeVariant) → Arg c.xdr (encode_order_type c t) order_type
unfolding encode_order_type
encode_order_type-Typed c market = tagged-Typed c "Market" [] no_ty order_variants (here _) tt
encode_order_type-Typed c (limit p) =
    tagged-Typed c "Limit" (i128 c.xdr p ∷ []) (ty Ty.i128 no_ty) order_variants
      (there _ _ _ (here _)) (i128-Typed c.xdr p, tt)
encode_order_type-Typed c (stop_loss p) =
    tagged-Typed c "StopLoss" (i128 c.xdr p ∷ []) (ty Ty.i128 no_ty) order_variants
      (there _ _ _ (there _ _ _ (here _))) (i128-Typed c.xdr p, tt)
encode_order_type-Typed c (take_profit p) =
    tagged-Typed c "TakeProfit" (i128 c.xdr p ∷ []) (ty Ty.i128 no_ty) order_variants
      (there _ _ _ (there _ _ _ (there _ _ _ (here _)))) (i128-Typed c.xdr p, tt)
encode_order_type-Typed c (trailing o a) =
    tagged-Typed c "Trailing" (i128 c.xdr o ∷ i128 c.xdr a ∷ []) (ty Ty.i128 (ty Ty.i128 no_ty))
      order_variants (there _ _ _ (there _ _ _ (there _ _ _ (there _ _ _ (here _)))))
      (i128-Typed c.xdr o, (i128-Typed c.xdr a, tt))
