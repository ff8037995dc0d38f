-- ===== src/Frontend/Storage.antt =====
-- The replacer and the reviver of the session's storage (`bigintStorage` of
-- packages/frontend/src/stores/sessionStore.ts), as functions on the tree of a value. `JSON.stringify`
-- and `JSON.parse` themselves are the identity on a tree without bigints; a number is an integer.
pub mod Restored
mod Tests
use stellax.Base.{
  ℕ, zero, suc, ◌+◌, ◌-◌, ◌*◌, ◌/◌, ◌%◌, Bool, true, false, ◌&&◌, Option, none, some, List, [], ◌∷◌,
  ltb, leb, ◌==◌, if◌then◌else◌,
}
use stellax.Base.Int.{ℤ, pos, negsuc}
use stellax.Indexer.Rows.{Text, same_text}
use stellax.Indexer.Decode.Values.{codes, to_string}

mutual
  pub data Value : Type 0 where
    null : Value
    bool : Bool → Value
    number : ℤ → Value
    string : Text → Value
    bigint : ℤ → Value
    array : Items → Value
    object : Fields → Value

  pub data Items : Type 0 where
    nil : Items
    cons : Value → Items → Items

  pub data Fields : Type 0 where
    end : Fields
    field : (key : Text) → Value → Fields → Fields

unfoldable pub digit_run : ℕ → Text → Option ℕ
digit_run acc [] = some acc
digit_run acc (c ∷ s) =
    let more = digit_run (10 * acc + (c - b'0')) s in
    if leb b'0' c && leb c b'9' then more else none

abbrev pub negated : Option ℕ → Option ℤ
negated none = none
negated (some zero) = some (pos 0)
negated (some (suc n)) = some (negsuc n)

abbrev pub not_negated : Option ℕ → Option ℤ
not_negated none = none
not_negated (some n) = some (pos n)

-- `BigInt(s)` of a decimal numeral; any other string throws here
unfoldable pub big_int : Text → Option ℤ
unfolding digit_run
big_int [] = some (pos 0)
big_int (c ∷ s) =
    let whole = not_negated (digit_run 0 (c ∷ s)) in
    if c == b'-' then negated (digit_run 0 s) else whole

abbrev pub reserved : Text
reserved = codes "__bigint__"

-- `JSON.stringify` with the replacer: it visits a value before what the value contains
unfoldable mutual
  unfolding to_string

  pub replace : Value → Value
  replace null = null
  replace (bool b) = bool b
  replace (number n) = number n
  replace (string s) = string s
  replace (bigint n) = object (field reserved (string (to_string n)) end)
  replace (array xs) = array (replace_items xs)
  replace (object fs) = object (replace_fields fs)

  pub replace_items : Items → Items
  replace_items nil = nil
  replace_items (cons x xs) = cons (replace x) (replace_items xs)

  pub replace_fields : Fields → Fields
  replace_fields end = end
  replace_fields (field k v fs) = field k (replace v) (replace_fields fs)

-- the property of an object, if it has it
unfoldable pub get : Text → Fields → Option Value
get key end = none
get key (field k v fs) = let rest = get key fs in if same_text k key then some v else rest

-- `BigInt(v)`
unfoldable pub to_big_int : Value → Option ℤ
unfolding big_int
to_big_int null = none
to_big_int (bool false) = some (pos 0)
to_big_int (bool true) = some (pos 1)
to_big_int (number n) = some n
to_big_int (string s) = big_int s
to_big_int (bigint n) = some n
to_big_int (array xs) = none
to_big_int (object fs) = none

abbrev pub as_bigint : Option ℤ → Option Value
as_bigint none = none
as_bigint (some n) = some (bigint n)

-- the reviver on an object whose properties are revived
unfoldable pub revived : Fields → Option Value
unfolding get to_big_int
revived fs = elim (get reserved fs) [ none ↦ some (object fs) | some v ↦ as_bigint (to_big_int v) ]

abbrev pub revived_array : Option Items → Option Value
revived_array none = none
revived_array (some xs) = some (array xs)

abbrev pub revived_object : Option Fields → Option Value
unfolding revived
revived_object none = none
revived_object (some fs) = revived fs

abbrev pub joined : Option Value → Option Items → Option Items
joined none xs = none
joined (some x) none = none
joined (some x) (some xs) = some (cons x xs)

abbrev pub joined_field : Text → Option Value → Option Fields → Option Fields
joined_field k none fs = none
joined_field k (some v) none = none
joined_field k (some v) (some fs) = some (field k v fs)

-- `JSON.parse` with the reviver: it visits what a value contains before the value; `none` where it throws
unfoldable mutual
  unfolding revived

  pub revive : Value → Option Value
  revive null = some null
  revive (bool b) = some (bool b)
  revive (number n) = some (number n)
  revive (string s) = some (string s)
  revive (bigint n) = some (bigint n)
  revive (array xs) = revived_array (revive_items xs)
  revive (object fs) = revived_object (revive_fields fs)

  pub revive_items : Items → Option Items
  revive_items nil = some nil
  revive_items (cons x xs) = joined (revive x) (revive_items xs)

  pub revive_fields : Fields → Option Fields
  revive_fields end = some end
  revive_fields (field k v fs) = joined_field k (revive v) (revive_fields fs)
