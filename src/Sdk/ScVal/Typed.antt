-- ===== src/Sdk/ScVal/Typed.antt =====
-- The type that each encoder of `enc` gives.
use Prim.Native.String.{String}
use stellax.Base.{
  ℕ, ◌≡◌, subst, Bool, Option, some, List, [], ◌∷◌, length, map, some_eq, absent, Option-cases, inl,
  inr,
}
use stellax.Base.Int.{ℤ}
use stellax.Sdk.Native.{number, big, text, bytes}
use stellax.Sdk.Xdr.{Xdr, Ty, Scalar, Each}
use stellax.Sdk.ScVal.{u32, u64, i128, symbol, bool, bytes_val, bytes_n, address, vec, all_of}

-- an argument that is encoded has the type
abbrev pub Arg : (x : Xdr) → Option x.ScVal → Ty → Type 0
Arg x o t = (v : x.ScVal) → o ≡ some v → x.HasType v t

module _ (x : Xdr) where
  pub u32-Typed : (n : ℤ) → Arg x (u32 x n) Ty.u32
  unfolding u32
  u32-Typed n = x.scalar_typed (number n) Scalar.u32

  pub u64-Typed : (n : ℤ) → Arg x (u64 x n) Ty.u64
  unfolding u64
  u64-Typed n = x.scalar_typed (big n) Scalar.u64

  pub i128-Typed : (n : ℤ) → Arg x (i128 x n) Ty.i128
  unfolding i128
  i128-Typed n = x.scalar_typed (big n) Scalar.i128

  pub symbol-Typed : (s : String) → Arg x (symbol x s) Ty.symbol
  unfolding symbol
  symbol-Typed s = x.scalar_typed (text s) Scalar.symbol

  pub bytes-Typed : (b : List ℕ) → Arg x (bytes_val x b) Ty.bytes
  unfolding bytes_val
  bytes-Typed b = x.scalar_typed (bytes b) Scalar.bytes

  pub bytes_n-Typed : (n : ℕ) (b : List ℕ) → length b ≡ n → Arg x (bytes_n x b) (Ty.bytes_n n)
  unfolding bytes_n
  bytes_n-Typed n b h v e = subst (λ k. x.HasType v (Ty.bytes_n k)) h (x.scalar_bytes_n b v e)

  pub bool-Typed : (b : Bool) → Arg x (bool x b) Ty.bool
  unfolding bool
  bool-Typed b v e = subst (λ w. x.HasType w Ty.bool) (some_eq e) (x.bool_typed b)

  pub address-Typed : (a : String) → Arg x (address x a) Ty.address
  unfolding address
  address-Typed a = x.address_typed a

  pub some-Typed : (o : Option x.ScVal) (t : Ty) → Arg x o t → Arg x o (Ty.option t)
  some-Typed o t h v e = x.some_typed v t (h v e)

  pub void-Typed : (t : Ty) → Arg x (some x.scv_void) (Ty.option t)
  void-Typed t v e = subst (λ w. x.HasType w (Ty.option t)) (some_eq e) (x.none_typed t)

  -- the values of a list that is encoded have the type of its items
  all_of-Each :
      {A : Type 0} (f : A → Option x.ScVal) (t : Ty)
      → ((a : A) → Arg x (f a) t)
      → (as' : List A) (vs : List x.ScVal) → all_of (map f as') ≡ some vs
      → Each x.HasType vs t
  all_of-Each f t h [] vs e = subst (λ us. Each x.HasType us t) (some_eq e) tt
  all_of-Each f t h (a ∷ as') vs e = elim (Option-cases (f a)) [
    | inl p ↦ absurd (absent (rw p at e))
    | inr (v, p) ↦ elim (Option-cases (all_of (map f as'))) [
      | inl q ↦ absurd (absent (rw (p, q) at e))
      | inr (us, q) ↦
          subst (λ ws. Each x.HasType ws t) (some_eq (rw (p, q) at e))
            (h a v p, all_of-Each f t h as' us q)
    ]
  ]

  pub vec-Typed :
      {A : Type 0} (f : A → Option x.ScVal) (t : Ty)
      → ((a : A) → Arg x (f a) t)
      → (as' : List A) → Arg x (vec x (map f as')) (Ty.vec t)
  unfolding vec
  vec-Typed f t h as' v e = elim (Option-cases (all_of (map f as'))) [
    | inl p ↦ absurd (absent (rw (p, vec) at e))
    | inr (vs, p) ↦
        subst (λ w. x.HasType w (Ty.vec t)) (some_eq (rw (p, vec) at e))
          (x.vec_typed vs t (all_of-Each f t h as' vs p))
  ]
