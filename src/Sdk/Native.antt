-- ===== src/Sdk/Native.antt =====
-- The values of JavaScript that `scValToNative` answers with, and the conversions that the SDK applies
-- to them. `none` is an exception, or a string or number that the model does not form (the decimal
-- string of a number, the number that a text spells, a bigint that a number cannot hold exactly).
use Prim.Native.String.{String}
use package.text.Mathlib.Text.{◌==◌ as str_eq}
use stellax.Base.{
  ℕ, zero, suc, ◌^◌, Bool, true, false, Option, none, some, List, [], ◌∷◌, leb, if◌then◌else◌,
}
use stellax.Base.Int.{ℤ, pos, negsuc}

mutual
  pub data Native : Type 0 where
    undefined null : Native
    bool : Bool → Native
    number big : ℤ → Native
    text : String → Native
    bytes : List ℕ → Native
    array : Natives → Native
    object : Members → Native

  pub data Natives : Type 0 where
    no_item : Natives
    item : Native → Natives → Natives

  pub data Members : Type 0 where
    no_member : Members
    member : String → Native → Members → Members

-- a number that is an integer, or NaN
pub data Number : Type 0 where
  nan : Number
  int : ℤ → Number

infixl 5 ◌>>=◌
abbrev pub ◌>>=◌ {ℓ κ} : {A : Type ℓ} {B : Type κ} → Option A → (A → Option B) → Option B
none >>= f = none
some a >>= f = f a

abbrev pub get_member : String → Members → Native
get_member k no_member = undefined
get_member k (member j v rest) = if str_eq j k then v else get_member k rest

-- `(o ?? {}).k`
abbrev pub get : Native → String → Native
get (object ms) k = get_member k ms
get (array vs) k = undefined
get (bytes b) k = undefined
get (text s) k = undefined
get (big n) k = undefined
get (number n) k = undefined
get (bool b) k = undefined
get null k = undefined
get undefined k = undefined

-- an integer that a number holds exactly
abbrev pub is_safe : ℤ → Bool
is_safe (pos n) = leb n (2 ^ 53)
is_safe (negsuc n) = leb n (2 ^ 53)

abbrev pub bit : Bool → ℤ
bit true = pos 1
bit false = pos 0

-- `BigInt(v)`
abbrev pub big_int : Native → Option ℤ
big_int (number n) = some n
big_int (big n) = some n
big_int (bool b) = some (bit b)
big_int undefined = none
big_int null = none
big_int (text s) = none
big_int (bytes b) = none
big_int (array vs) = none
big_int (object ms) = none

-- `Number(v)`
abbrev pub to_number : Native → Option Number
to_number (number n) = some (int n)
to_number (big n) = if is_safe n then some (int n) else none
to_number (bool b) = some (int (bit b))
to_number undefined = some nan
to_number null = some (int (pos 0))
to_number (text s) = none
to_number (bytes b) = none
to_number (array vs) = none
to_number (object ms) = some nan

abbrev is_zero : ℤ → Bool
is_zero (pos zero) = true
is_zero (pos (suc n)) = false
is_zero (negsuc n) = false

-- `Boolean(v)`
abbrev pub to_boolean : Native → Bool
to_boolean undefined = false
to_boolean null = false
to_boolean (bool b) = b
to_boolean (number n) = if is_zero n then false else true
to_boolean (big n) = if is_zero n then false else true
to_boolean (text s) = if str_eq s "" then false else true
to_boolean (bytes b) = true
to_boolean (array vs) = true
to_boolean (object ms) = true

-- `String(v)`
abbrev pub to_text : Native → Option String
to_text (text s) = some s
to_text undefined = some "undefined"
to_text null = some "null"
to_text (bool b) = some (if b then "true" else "false")
to_text (object ms) = some "[object Object]"
to_text (number n) = none
to_text (big n) = none
to_text (bytes b) = none
to_text (array vs) = none

-- `v instanceof Uint8Array ? v : new Uint8Array(v)`, of the values that a contract gives
abbrev pub to_bytes : Native → Option (List ℕ)
to_bytes (bytes b) = some b
to_bytes undefined = some []
to_bytes null = some []
to_bytes (bool b) = none
to_bytes (number n) = none
to_bytes (big n) = none
to_bytes (text s) = none
to_bytes (array vs) = none
to_bytes (object ms) = none

-- `v == null ? null : String(v)`
abbrev pub nullable_text : Native → Option (Option String)
nullable_text undefined = some none
nullable_text null = some none
nullable_text v = to_text v >>= λ s. some (some s)

-- `v ?? d`
abbrev pub or_else : Native → Native → Native
or_else undefined d = d
or_else null d = d
or_else v d = v

-- an object with the given members, as `scValToNative` makes it of a struct of a contract
abbrev pub members_of : List (String × Native) → Members
members_of [] = no_member
members_of ((k, v) ∷ ms) = member k v (members_of ms)

abbrev pub struct_of : List (String × Native) → Native
struct_of ms = object (members_of ms)
