-- ===== src/Sdk/Xdr/Model.antt =====
-- A value that shows that the laws of `Xdr` can be met: an ScVal as what `scValToNative` makes of it, with
-- a test for the types it has. Addresses are the texts that are not empty.
use Prim.Native.String.{String}
use package.text.Mathlib.Text.{◌==◌ as str_eq}
use package.text.Mathlib.TextEquality.{eq_iff}
use stellax.Base.{
  ℕ, ◌≡◌, refl, sym, subst, ap, Bool, true, false, ◌&&◌, ◌||◌, Option, none, some, List, [], ◌∷◌,
  length, ◌==◌, ==_iff, if◌then◌else◌, arith, some_eq, absent, Bool-cases, inl, inr,
}
use stellax.Sdk.Native.{Native, bool, text, bytes, array, object, null}
use stellax.Sdk.Xdr.{
  Xdr, Ty, Fields, field, no_field, Tys, ty, no_ty, Variants, variant, no_variant, Scalar,
  scalar_ty, Values, Each, Entries, Variant, natives, members,
}

pub record Val : Type 0 where
  pub native : Native
  pub is_void : Bool
  pub has : Ty → Bool

abbrev pub holds : Val → Ty → Bool
holds v (Ty.option t) = v.is_void || holds v t
holds v t = v.has t

abbrev pub Has : Val → Ty → Type 0
Has v t = holds v t ≡ true

abbrev pub all_have : List Val → Ty → Bool
all_have [] t = true
all_have (v ∷ vs) t = holds v t && all_have vs t

abbrev pub have : List Val → Tys → Bool
have [] no_ty = true
have [] (ty t ts) = false
have (v ∷ vs) no_ty = false
have (v ∷ vs) (ty t ts) = holds v t && have vs ts

abbrev pub is_text : Native → String → Bool
is_text (text s) k = str_eq s k
is_text n k = false

abbrev pub is_variant : Native → List Val → Variants → Bool
is_variant n vs no_variant = false
is_variant n vs (variant k ts us) = (is_text n k && have vs ts) || is_variant n vs us

abbrev pub has_union : List Val → Variants → Bool
has_union [] us = false
has_union (v ∷ vs) us = is_variant v.native vs us

abbrev pub entries_have : List (String × Val) → Fields → Bool
entries_have [] no_field = true
entries_have [] (field k t fs) = false
entries_have (e ∷ es) no_field = false
entries_have ((j, v) ∷ es) (field k t fs) = str_eq j k && (holds v t && entries_have es fs)

abbrev pub is_bool : Ty → Bool
is_bool Ty.bool = true
is_bool t = false

abbrev pub is_address : Ty → Bool
is_address Ty.address = true
is_address t = false

abbrev pub is_vec : List Val → Ty → Bool
is_vec vs (Ty.vec t) = all_have vs t
is_vec vs (Ty.union us) = has_union vs us
is_vec vs t = false

abbrev pub is_map : List (String × Val) → Ty → Bool
is_map es (Ty.struct fs) = entries_have es fs
is_map es t = false

abbrev pub size : Native → ℕ
size (bytes b) = length b
size n = 0

abbrev pub is_scalar : Native → Scalar → Ty → Bool
is_scalar n Scalar.u32 Ty.u32 = true
is_scalar n Scalar.i32 Ty.i32 = true
is_scalar n Scalar.u64 Ty.u64 = true
is_scalar n Scalar.i128 Ty.i128 = true
is_scalar n Scalar.symbol Ty.symbol = true
is_scalar n Scalar.string Ty.string = true
is_scalar n Scalar.bytes Ty.bytes = true
is_scalar n Scalar.bytes (Ty.bytes_n k) = size n == k
is_scalar n s t = false

pub str_eq_self : (s : String) → str_eq s s ≡ true
str_eq_self s = (eq_iff s s).1 refl

pub all_have-Each : (vs : List Val) (t : Ty) → Each Has vs t → all_have vs t ≡ true
all_have-Each [] t h = refl
all_have-Each (v ∷ vs) t (p, h) = rw p (all_have-Each vs t h)

pub Each-all_have : (vs : List Val) (t : Ty) → all_have vs t ≡ true → Each Has vs t
Each-all_have [] t h = tt
Each-all_have (v ∷ vs) t h = elim (Bool-cases (holds v t)) [
  | inl p ↦ (p, Each-all_have vs t (rw p at h))
  | inr p ↦ absurd (ground arith)
]

pub have-Values : (vs : List Val) (ts : Tys) → Values Has vs ts → have vs ts ≡ true
have-Values [] no_ty h = refl
have-Values [] (ty t ts) h = absurd h
have-Values (v ∷ vs) no_ty h = absurd h
have-Values (v ∷ vs) (ty t ts) (p, h) = rw p (have-Values vs ts h)

pub Entries-Entries :
    (es : List (String × Val)) (fs : Fields) → Entries Has es fs → entries_have es fs ≡ true
Entries-Entries [] no_field h = refl
Entries-Entries [] (field k t fs) h = absurd h
Entries-Entries (e ∷ es) no_field h = absurd h
Entries-Entries ((j, v) ∷ es) (field k t fs) (e, p, h) =
    rw e (rw (str_eq_self k) (rw p (Entries-Entries es fs h)))

pub Variant-test :
    (k : String) (vs : List Val) (ts : Tys) (us : Variants)
    → Variant k ts us
    → Values Has vs ts
    → is_variant (text k) vs us ≡ true
Variant-test k vs ts us (Variant.here us') h = rw (str_eq_self k) (rw (have-Values vs ts h) refl)
Variant-test k vs ts us (Variant.there j us' rest w) h =
    elim (Bool-cases (str_eq k j && have vs us')) [
      | inl p ↦ rw p refl
      | inr p ↦ rw p (Variant-test k vs ts rest w h)
    ]

pub false-true : false ≡ true → ⊥
false-true h = cc

pub or_true : (b : Bool) → (b || true) ≡ true
or_true true = refl
or_true false = refl

abbrev pub made : (n : Native) (s : Scalar) → Val
made n s = record { native = n; is_void = false; has = is_scalar n s }

pub scalar-Has : (n : Native) (s : Scalar) → Has (made n s) (scalar_ty s)
scalar-Has n Scalar.u32 = refl
scalar-Has n Scalar.i32 = refl
scalar-Has n Scalar.u64 = refl
scalar-Has n Scalar.i128 = refl
scalar-Has n Scalar.symbol = refl
scalar-Has n Scalar.string = refl
scalar-Has n Scalar.bytes = refl

abbrev pub address_of : String → Bool → Option Val
address_of a empty =
    if empty then none else some (record { native = text a; is_void = false; has = is_address })

pub address_of-Has : (a : String) (b : Bool) (v : Val) → address_of a b ≡ some v → Has v Ty.address
address_of-Has a true v e = absurd (absent e)
address_of-Has a false v e = subst (λ w. Has w Ty.address) (some_eq e) refl

pub address_of_native :
    (a : String) (b : Bool) (v : Val) → address_of a b ≡ some v → v.native ≡ text a
address_of_native a true v e = absurd (absent e)
address_of_native a false v e = ap (λ (w : Val). w.native) (sym (some_eq e))

abbrev pub model : Xdr
model = record {
  ScVal = Val;
  scv_void = record { native = null; is_void = true; has = λ t. false };
  scv_bool = λ b. record { native = bool b; is_void = false; has = is_bool };
  scv_symbol =
      λ s. record { native = text s; is_void = false; has = is_scalar (text s) Scalar.symbol };
  scv_string =
      λ s. record { native = text s; is_void = false; has = is_scalar (text s) Scalar.string };
  scv_bytes =
      λ b. record { native = bytes b; is_void = false; has = is_scalar (bytes b) Scalar.bytes };
  scv_vec = λ vs. record {
    native = array (natives (λ v. v.native) vs);
    is_void = false;
    has = is_vec vs;
  };
  scv_map = λ es. record {
    native = object (members (λ v. v.native) es);
    is_void = false;
    has = is_map es;
  };
  native_to_sc_val = λ n s. some (made n s);
  address_val = λ a. address_of a (str_eq a "");
  sc_val_to_native = λ v. v.native;
  is_void = λ v. v.is_void;
  vec_items = λ v. none;
  HasType = Has;
  none_typed = λ t. refl;
  some_typed = λ v t h. rw h (or_true v.is_void);
  bool_typed = λ b. refl;
  string_typed = λ s. refl;
  bytes_typed = λ b. refl;
  bytes_n_typed = λ b. (==_iff _ _).1 refl;
  vec_typed = all_have-Each;
  vec_members = Each-all_have;
  struct_typed = Entries-Entries;
  union_typed = λ k vs ts us w h. Variant-test k vs ts us w h;
  scalar_typed = λ n s v e. subst (λ w. Has w (scalar_ty s)) (some_eq e) (scalar-Has n s);
  scalar_bytes_n =
      λ b v e. subst (λ w. Has w (Ty.bytes_n (length b))) (some_eq e) ((==_iff _ _).1 refl);
  bytes-ne-symbol =
      λ n v e h. absurd (false-true (subst (λ w. Has w Ty.symbol) (sym (some_eq e)) h));
  address_typed = λ a v e. address_of-Has a (str_eq a "") v e;
  void_is = refl;
  native_void = refl;
  native_bool = λ b. refl;
  native_symbol = λ s. refl;
  native_vec = λ vs. refl;
  native_map = λ es. refl;
  native_scalar = λ n s v e. ap (λ (w : Val). w.native) (sym (some_eq e));
  native_address = λ a v e. address_of_native a (str_eq a "") v e;
}
