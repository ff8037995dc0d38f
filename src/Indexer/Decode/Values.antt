-- ===== src/Indexer/Decode/Values.antt =====
-- The values of an event and the conversions that the decoders of packages/indexer/src/watcher.ts apply
-- to them. `scValToNative` turns an ScVal into a value of JavaScript: here a scalar or a flat vector of
-- scalars, which is what the contracts publish.
use Prim.Native.Char.{code}
use Prim.Native.String.{String}
use stellax.Base.{
  ℕ, zero, suc, ◌+◌, ◌/◌, ◌%◌, Bool, true, false, Option, none, some, List, [], ◌∷◌, ltb,
  if◌then◌else◌,
}
use stellax.Base.Int.{ℤ, pos, negsuc}
use stellax.Indexer.Rows.{Text}

-- the character codes of a literal
abbrev pub codes : String → Text
codes String.[] = []
codes (String.◌∷◌ c s) = code c ∷ codes s

pub data Scalar : Type 0 where
  undefined : Scalar
  int : ℤ → Scalar
  text : Text → Scalar
  bool : Bool → Scalar
  bytes : List ℕ → Scalar

pub data Native : Type 0 where
  scalar : Scalar → Native
  tuple : List Scalar → Native

-- `EventResponse`, its topics and its value passed through `scValToNative`
pub record RawEvent : Type 0 where
  pub contract_id : Text
  pub ledger : ℕ
  pub topics : List Scalar
  pub value : Native
  pub closed_at : ℕ
  pub tx_hash : Text

infixl 5 ◌>>=◌
abbrev pub ◌>>=◌ : {A B : Type 0} → Option A → (A → Option B) → Option B
none >>= f = none
some a >>= f = f a

-- the decimal digits of a number before a text; the number is enough fuel
unfoldable pub digits : ℕ → ℕ → Text → Text
digits zero n s = (b'0' + n) ∷ s
digits (suc fuel) n s =
    let more = digits fuel (n / 10) ((b'0' + n % 10) ∷ s) in
    if ltb n 10 then (b'0' + n) ∷ s else more

-- `value.toString()` of a bigint
unfoldable pub to_string : ℤ → Text
unfolding digits
to_string (pos n) = digits n n []
to_string (negsuc n) = b'-' ∷ digits (suc n) (suc n) []

-- `xs[i]`
abbrev pub at : List Scalar → ℕ → Scalar
at [] i = undefined
at (x ∷ xs) zero = x
at (x ∷ xs) (suc i) = at xs i

-- `toStr(v)` where it is the decimal form of an integer
abbrev pub to_str : Scalar → Option ℤ
to_str undefined = some (pos 0)
to_str (int n) = some n
to_str (text t) = none
to_str (bool b) = none
to_str (bytes bs) = none

-- the same for an id, a u64, and for a number that is not negative
abbrev pub natural : Option ℤ → Option ℕ
natural none = none
natural (some (pos n)) = some n
natural (some (negsuc n)) = none

abbrev pub to_id : Scalar → Option ℕ
to_id v = natural (to_str v)

-- `Number(v)`
abbrev pub number : Scalar → Option ℕ
number undefined = none
number (int (pos n)) = some n
number (int (negsuc n)) = none
number (text t) = none
number (bool b) = none
number (bytes bs) = none

-- `v ?? 0`
abbrev pub or_zero : Scalar → Scalar
or_zero undefined = int (pos 0)
or_zero (int n) = int n
or_zero (text t) = text t
or_zero (bool b) = bool b
or_zero (bytes bs) = bytes bs

-- `String(v)` and `String(v ?? "")`, where `v` is a text, a bigint or undefined
abbrev pub string : Scalar → Option Text
string undefined = some (codes "undefined")
string (int n) = some (to_string n)
string (text t) = some t
string (bool b) = none
string (bytes bs) = none

abbrev pub string_or_empty : Scalar → Option Text
string_or_empty undefined = some []
string_or_empty (int n) = some (to_string n)
string_or_empty (text t) = some t
string_or_empty (bool b) = none
string_or_empty (bytes bs) = none

abbrev pub truthy : Scalar → Bool
truthy undefined = false
truthy (int (pos zero)) = false
truthy (int (pos (suc n))) = true
truthy (int (negsuc n)) = true
truthy (text []) = false
truthy (text (c ∷ t)) = true
truthy (bool b) = b
truthy (bytes bs) = true

-- `data as [...]`: a value that is no array throws
abbrev pub elements : Native → Option (List Scalar)
elements (scalar v) = none
elements (tuple vs) = some vs

-- `Array.isArray(data) ? data : [data]`
abbrev pub as_array : Native → List Scalar
as_array (scalar v) = v ∷ []
as_array (tuple vs) = vs

-- `Array.isArray(data) ? data : []`
abbrev pub array_or_empty : Native → List Scalar
array_or_empty (scalar v) = []
array_or_empty (tuple vs) = vs

-- `data?.[0]`
abbrev pub first_of : Native → Scalar
first_of (tuple vs) = at vs 0
first_of (scalar undefined) = undefined
first_of (scalar (int n)) = undefined
first_of (scalar (text [])) = undefined
first_of (scalar (text (c ∷ t))) = text (c ∷ [])
first_of (scalar (bool b)) = undefined
first_of (scalar (bytes [])) = undefined
first_of (scalar (bytes (b ∷ bs))) = int (pos b)
