-- ===== src/Sdk/Xdr.antt =====
-- What the SDK uses of @stellar/stellar-sdk, as an interface: the constructors of `xdr.ScVal`,
-- `nativeToScVal`, `new Address(a).toScVal()` and `scValToNative`. The laws are the documented ones: which
-- type of Soroban a value has, and that a value is read back as it was written.
pub mod Model
use Prim.Native.String.{String}
use stellax.Base.{ℕ, ◌≡◌, Bool, true, Option, some, List, [], ◌∷◌, length}
use stellax.Sdk.Native.{Native, Natives, Members, array, object, null}

-- The types of Soroban. `udt` is a type of a contract that no client sends.
mutual
  pub data Ty : Type 0 where
    bool u32 i32 u64 i128 symbol string bytes address : Ty
    bytes_n : ℕ → Ty
    vec option : Ty → Ty
    struct : Fields → Ty
    union : Variants → Ty
    udt : String → Ty

  pub data Fields : Type 0 where
    no_field : Fields
    field : String → Ty → Fields → Fields

  pub data Tys : Type 0 where
    no_ty : Tys
    ty : Ty → Tys → Tys

  pub data Variants : Type 0 where
    no_variant : Variants
    variant : String → Tys → Variants → Variants

-- the types that `nativeToScVal` is asked for
pub data Scalar : Type 0 where
  u32 i32 u64 i128 symbol string bytes : Scalar

abbrev pub scalar_ty : Scalar → Ty
scalar_ty Scalar.u32 = Ty.u32
scalar_ty Scalar.i32 = Ty.i32
scalar_ty Scalar.u64 = Ty.u64
scalar_ty Scalar.i128 = Ty.i128
scalar_ty Scalar.symbol = Ty.symbol
scalar_ty Scalar.string = Ty.string
scalar_ty Scalar.bytes = Ty.bytes

module _ {V : Type 0} (HasType : V → Ty → Type 0) where
  -- each value has its type
  abbrev pub Values : List V → Tys → Type 0
  Values [] no_ty = Unit {0}
  Values [] (ty t ts) = ⊥
  Values (v ∷ vs) no_ty = ⊥
  Values (v ∷ vs) (ty t ts) = HasType v t × Values vs ts

  abbrev pub Each : List V → Ty → Type 0
  Each [] t = Unit {0}
  Each (v ∷ vs) t = HasType v t × Each vs t

  -- the members of a struct stand in the order of its fields
  abbrev pub Entries : List (String × V) → Fields → Type 0
  Entries [] no_field = Unit {0}
  Entries [] (field k t fs) = ⊥
  Entries (e ∷ es) no_field = ⊥
  Entries ((k', v) ∷ es) (field k t fs) = (k' ≡ k) × HasType v t × Entries es fs

-- the payload of a variant, if the union has it
pub data Variant (k : String) (ts : Tys) : Variants → Type 0 where
  here : (vs : Variants) → Variant k ts (variant k ts vs)
  there : (j : String) (us : Tys) (vs : Variants) → Variant k ts vs → Variant k ts (variant j us vs)

module _ {V : Type 0} (native : V → Native) where
  abbrev pub natives : List V → Natives
  natives [] = Natives.no_item
  natives (v ∷ vs) = Natives.item (native v) (natives vs)

  abbrev pub members : List (String × V) → Members
  members [] = Members.no_member
  members ((k, v) ∷ es) = Members.member k (native v) (members es)

pub record Xdr : Type 1 where
  pub ScVal : Type 0
  pub scv_void : ScVal
  pub scv_bool : Bool → ScVal
  pub scv_symbol : String → ScVal
  pub scv_string : String → ScVal
  pub scv_bytes : List ℕ → ScVal
  pub scv_vec : List ScVal → ScVal
  pub scv_map : List (String × ScVal) → ScVal
  pub native_to_sc_val : Native → Scalar → Option ScVal
  pub address_val : String → Option ScVal
  pub sc_val_to_native : ScVal → Native
  pub is_void : ScVal → Bool
  -- `v.vec()`, which throws unless the value is a vector
  pub vec_items : ScVal → Option (List ScVal)
  pub HasType : ScVal → Ty → Type 0
  pub none_typed : (t : Ty) → HasType scv_void (Ty.option t)
  pub some_typed : (v : ScVal) (t : Ty) → HasType v t → HasType v (Ty.option t)
  pub bool_typed : (b : Bool) → HasType (scv_bool b) Ty.bool
  pub string_typed : (s : String) → HasType (scv_string s) Ty.string
  pub bytes_typed : (b : List ℕ) → HasType (scv_bytes b) Ty.bytes
  pub bytes_n_typed : (b : List ℕ) → HasType (scv_bytes b) (Ty.bytes_n (length b))
  pub vec_typed : (vs : List ScVal) (t : Ty) → Each HasType vs t → HasType (scv_vec vs) (Ty.vec t)
  pub vec_members : (vs : List ScVal) (t : Ty) → HasType (scv_vec vs) (Ty.vec t) → Each HasType vs t
  pub struct_typed :
      (es : List (String × ScVal)) (fs : Fields)
      → Entries HasType es fs
      → HasType (scv_map es) (Ty.struct fs)
  pub union_typed :
      (k : String) (vs : List ScVal) (ts : Tys) (us : Variants)
      → Variant k ts us
      → Values HasType vs ts
      → HasType (scv_vec (scv_symbol k ∷ vs)) (Ty.union us)
  pub scalar_typed :
      (n : Native) (s : Scalar) (v : ScVal)
      → native_to_sc_val n s ≡ some v
      → HasType v (scalar_ty s)
  pub scalar_bytes_n :
      (b : List ℕ) (v : ScVal)
      → native_to_sc_val (Native.bytes b) Scalar.bytes ≡ some v
      → HasType v (Ty.bytes_n (length b))
  pub bytes-ne-symbol :
      (n : Native) (v : ScVal) → native_to_sc_val n Scalar.bytes ≡ some v → HasType v Ty.symbol → ⊥
  pub address_typed : (a : String) (v : ScVal) → address_val a ≡ some v → HasType v Ty.address
  pub void_is : is_void scv_void ≡ true
  pub native_void : sc_val_to_native scv_void ≡ null
  pub native_bool : (b : Bool) → sc_val_to_native (scv_bool b) ≡ Native.bool b
  pub native_symbol : (s : String) → sc_val_to_native (scv_symbol s) ≡ Native.text s
  pub native_vec :
      (vs : List ScVal) → sc_val_to_native (scv_vec vs) ≡ array (natives sc_val_to_native vs)
  pub native_map :
      (es : List (String × ScVal))
      → sc_val_to_native (scv_map es) ≡ object (members sc_val_to_native es)
  pub native_scalar :
      (n : Native) (s : Scalar) (v : ScVal) → native_to_sc_val n s ≡ some v → sc_val_to_native v ≡ n
  pub native_address :
      (a : String) (v : ScVal) → address_val a ≡ some v → sc_val_to_native v ≡ Native.text a
