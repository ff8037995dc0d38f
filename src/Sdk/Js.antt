-- ===== src/Sdk/Js.antt =====
-- The JavaScript built-ins that the SDK's decoding rests on, over strings as lists of UTF-16 units.
use Prim.Native.Char.{code}
use Prim.Native.String.{String}
use stellax.Base.{
  ℕ, ◌+◌, ◌-◌, ◌*◌, ◌%◌, Bool, true, false, ◌&&◌, ◌||◌, Option, none, some, List, [], ◌∷◌, reverse,
  leb, ◌==◌, if◌then◌else◌,
}
use stellax.Base.Int.{ℤ, pos, negsuc, neg}

abbrev pub Text : Type 0
Text = List ℕ

-- white space and line terminators
unfoldable pub is_space : ℕ → Bool
is_space c =
    (leb 9 c && leb c 13)
    || c == 32
    || c == 160
    || c == 0x1680
    || (leb 0x2000 c && leb c 0x200a)
    || c == 0x2028
    || c == 0x2029
    || c == 0x202f
    || c == 0x205f
    || c == 0x3000
    || c == 0xfeff

unfoldable pub hex_value : ℕ → Option ℕ
hex_value c =
    if leb b'0' c && leb c b'9'
    then some (c - b'0')
    else if leb b'a' c && leb c b'f'
    then some (c - b'a' + 10)
    else if leb b'A' c && leb c b'F'
    then some (c - b'A' + 10)
    else none

unfoldable pub skip_spaces : Text → Text
unfolding is_space
skip_spaces [] = []
skip_spaces (c ∷ s) = let rest = skip_spaces s in if is_space c then rest else c ∷ s

-- `s.trim()`
unfoldable pub trim : Text → Text
unfolding skip_spaces
trim s = reverse (skip_spaces (reverse (skip_spaces s)))

-- the value of the longest run of hexadecimal digits at the front; none if there is none
unfoldable pub hex_run : Option ℕ → Text → Option ℕ
unfolding hex_value
hex_run acc [] = acc
hex_run acc (c ∷ s) = elim (hex_value c) [
  | none ↦ acc
  | some d ↦ hex_run (some (16 * elim acc [ none ↦ 0 | some a ↦ a ] + d)) s
]

abbrev pub skip_0x : Text → Text
skip_0x [] = []
skip_0x (a ∷ []) = a ∷ []
skip_0x (a ∷ b ∷ s) = if a == b'0' && (b == b'x' || b == b'X') then s else a ∷ b ∷ s

abbrev pub signed_run : Bool → Text → Option ℤ
signed_run negative s = elim (hex_run none (skip_0x s)) [
  | none ↦ none
  | some n ↦ some (if negative then neg (pos n) else pos n)
]

abbrev pub after_sign : Text → Option ℤ
after_sign [] = none
after_sign (c ∷ s) =
    if c == b'-'
    then signed_run true s
    else if c == b'+'
    then signed_run false s
    else signed_run false (c ∷ s)

-- `parseInt(s, 16)`; none is NaN
unfoldable pub parse_int_16 : Text → Option ℤ
unfolding skip_spaces hex_run neg
parse_int_16 s = after_sign (skip_spaces s)

-- a digit string, then only white space
unfoldable pub hex_all : ℕ → Text → Option ℕ
unfolding hex_value skip_spaces
hex_all acc [] = some acc
hex_all acc (c ∷ s) = elim (hex_value c) [
  | none ↦ elim (skip_spaces (c ∷ s)) [ [] ↦ some acc | _ ↦ none ]
  | some d ↦ hex_all (16 * acc + d) s
]

-- `BigInt("0x" + s)`; none is a SyntaxError
unfoldable pub big_int_hex : Text → Option ℕ
unfolding hex_all
big_int_hex [] = none
big_int_hex (c ∷ s) = elim (hex_value c) [ none ↦ none | some d ↦ hex_all d s ]

-- `String.fromCharCode`: the number modulo 2 ^ 16, and NaN is 0
unfoldable pub from_char_code : Option ℤ → ℕ
from_char_code none = 0
from_char_code (some (pos n)) = n % 65536
from_char_code (some (negsuc n)) = 65535 - n % 65536

-- the units of a literal
abbrev pub codes : String → Text
codes String.[] = []
codes (String.◌∷◌ c s) = code c ∷ codes s
