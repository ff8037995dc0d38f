-- ===== src/Sdk/Client/Conforms.antt =====
-- When a call fits the interface of a contract: the table of the contract has the method, and each
-- argument that is encoded has the type of its parameter.
use Prim.Native.String.{String}
use package.text.Mathlib.Text.{◌==◌ as str_eq}
use stellax.Base.{
  ℕ, ◌≡◌, refl, Option, none, some, List, [], ◌∷◌, if◌then◌else◌, absent, some_eq, subst, sym,
  Option-cases, inl, inr,
}
use stellax.Sdk.Xdr.{Xdr, Ty, Tys, ty, no_ty, Values}
use stellax.Sdk.ScVal.{all_of, bytes_val}
use stellax.Sdk.ScVal.Typed.{Arg, void-Typed, some-Typed, bytes-Typed}
use stellax.Sdk.Client.{Call, Request, request, ContractClient, price_bytes}

-- the functions of a contract with the types of their parameters
abbrev pub Abi : Type 0
Abi = List (String × Tys)

abbrev pub find_method : String → Abi → Option Tys
find_method m [] = none
find_method m ((k, ts) ∷ abi) = if str_eq k m then some ts else find_method m abi

abbrev pub Args : (x : Xdr) → List (Option x.ScVal) → Tys → Type 0
Args x [] no_ty = Unit {0}
Args x [] (ty t ts) = ⊥
Args x (o ∷ os) no_ty = ⊥
Args x (o ∷ os) (ty t ts) = Arg x o t × Args x os ts

abbrev pub Fits : (x : Xdr) → List (Option x.ScVal) → Option Tys → Type 0
Fits x args none = ⊥
Fits x args (some ts) = Args x args ts

abbrev pub Conforms : (x : Xdr) → Abi → Call x.ScVal → Type 0
Conforms x abi c = Fits x c.args (find_method c.method abi)

-- a request that the contract accepts
abbrev Accepted : (x : Xdr) → List x.ScVal → Option Tys → Type 0
Accepted x args none = ⊥
Accepted x args (some ts) = Values x.HasType args ts

abbrev pub Accepts : (x : Xdr) → Abi → Request x.ScVal → Type 0
Accepts x abi q = Accepted x q.args (find_method q.method abi)

pub all_of-Values :
    (x : Xdr) (os : List (Option x.ScVal)) (ts : Tys)
    → Args x os ts
    → (vs : List x.ScVal) → all_of os ≡ some vs
    → Values x.HasType vs ts
all_of-Values x [] no_ty h vs e = subst (λ us. Values x.HasType us no_ty) (some_eq e) tt
all_of-Values x [] (ty t ts) h vs e = absurd h
all_of-Values x (o ∷ os) no_ty h vs e = absurd h
all_of-Values x (none ∷ os) (ty t ts) h vs e = absurd (absent e)
all_of-Values x (some v ∷ os) (ty t ts) (p, h) vs e = elim (Option-cases (all_of os)) [
  | inl q ↦ absurd (absent (rw q at e))
  | inr (us, q) ↦
      subst (λ ws. Values x.HasType ws (ty t ts)) (some_eq (rw q at e))
        (p v refl, all_of-Values x os ts h us q)
]

Fits-Accepted :
    (x : Xdr) (args : List (Option x.ScVal)) (o : Option Tys)
    → Fits x args o
    → (vs : List x.ScVal) → all_of args ≡ some vs
    → Accepted x vs o
Fits-Accepted x args none h vs e = absurd h
Fits-Accepted x args (some ts) h vs e = all_of-Values x args ts h vs e

-- A call that conforms, if its arguments can be encoded, is a request that the contract accepts.
pub request-Accepts :
    (x : Xdr) (abi : Abi) (c : Call x.ScVal)
    → Conforms x abi c
    → (q : Request x.ScVal) → request c ≡ some q
    → Accepts x abi q
unfolding request
request-Accepts x abi c h q e = elim (Option-cases (all_of c.args)) [
  | inl p ↦ absurd (absent (rw p at e))
  | inr (vs, p) ↦
      subst (λ r. Accepts x abi r) (some_eq (rw p at e))
        (Fits-Accepted x c.args (find_method c.method abi) h vs p)
]

pub price_bytes-Typed :
    (c : ContractClient) (payload : Option (List ℕ))
    → Arg c.xdr (price_bytes c payload) (Ty.option Ty.bytes)
unfolding price_bytes
price_bytes-Typed c none = void-Typed c.xdr Ty.bytes
price_bytes-Typed c (some b) = some-Typed c.xdr (bytes_val c.xdr b) Ty.bytes (bytes-Typed c.xdr b)

-- The arguments that were encoded, each with the type of its parameter.
abbrev pub Encoded : (x : Xdr) → List (Option x.ScVal) → Tys → Type 0
Encoded x [] no_ty = Unit {0}
Encoded x [] (ty t ts) = ⊥
Encoded x (o ∷ os) no_ty = ⊥
Encoded x (o ∷ os) (ty t ts) = ((v : x.ScVal) × (o ≡ some v) × x.HasType v t) × Encoded x os ts

abbrev pub Given : (x : Xdr) → List (Option x.ScVal) → Option Tys → Type 0
Given x args none = ⊥
Given x args (some ts) = Encoded x args ts

Values-Encoded :
    (x : Xdr) (os : List (Option x.ScVal)) (ts : Tys) (vs : List x.ScVal)
    → all_of os ≡ some vs
    → Values x.HasType vs ts
    → Encoded x os ts
Values-Encoded x [] no_ty vs e h = tt
Values-Encoded x [] (ty t ts) vs e h =
    subst (λ us. Values x.HasType us (ty t ts)) (sym (some_eq e)) h
Values-Encoded x (none ∷ os) ts vs e h = absurd (absent e)
Values-Encoded x (some v ∷ os) no_ty vs e h = elim (Option-cases (all_of os)) [
  | inl q ↦ absurd (absent (rw q at e))
  | inr (us, q) ↦ subst (λ ws. Values x.HasType ws no_ty) (sym (some_eq (rw q at e))) h
]
Values-Encoded x (some v ∷ os) (ty t ts) vs e h = elim (Option-cases (all_of os)) [
  | inl q ↦ absurd (absent (rw q at e))
  | inr (us, q) ↦
      let g : Values x.HasType (v ∷ us) (ty t ts) =
        subst (λ ws. Values x.HasType ws (ty t ts)) (sym (some_eq (rw q at e))) h in
      ((v, refl, g.0), Values-Encoded x os ts us q g.1)
]

Accepted-Given :
    (x : Xdr) (os : List (Option x.ScVal)) (o : Option Tys) (vs : List x.ScVal)
    → all_of os ≡ some vs
    → Accepted x vs o
    → Given x os o
Accepted-Given x os none vs e h = absurd h
Accepted-Given x os (some ts) vs e h = Values-Encoded x os ts vs e h

-- What a contract accepts was encoded to the types of its parameters.
pub Accepts-Given :
    (x : Xdr) (abi : Abi) (c : Call x.ScVal) (q : Request x.ScVal)
    → request c ≡ some q
    → Accepts x abi q
    → Given x c.args (find_method c.method abi)
unfolding request
Accepts-Given x abi c q e h = elim (Option-cases (all_of c.args)) [
  | inl p ↦ absurd (absent (rw p at e))
  | inr (vs, p) ↦
      Accepted-Given x c.args (find_method c.method abi) vs p
        (subst (λ r. Accepts x abi r) (sym (some_eq (rw p at e))) h)
]
