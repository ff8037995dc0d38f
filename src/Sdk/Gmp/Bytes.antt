-- ===== src/Sdk/Gmp/Bytes.antt =====
-- The payload as the EVM bridge writes it: bytes as hexadecimal digits, and how they are read back.
use native.Mathlib.Nat.{
  pow-suc, div-add-mod, mod-lt, mul_comm, mod-eq_of_lt, mul-add-mod_self_left, mul-le-mul_right,
  zero-add, suc-add,
}
use stellax.Base.{
  Bool-cases, inl, inr, subst, ℕ, zero, suc, ◌+◌, ◌-◌, ◌*◌, ◌/◌, ◌%◌, ◌^◌, ◌<◌, ◌≡◌, refl, sym, ap,
  ◌∙◌, Bool, true, false, ◌&&◌, Option, none, some, List, [], ◌∷◌, ◌++◌, arith, ltb, ◌==◌, ==_iff,
  if◌then◌else◌, length, take, drop, All,
}
use stellax.Base.Int.{ℤ, pos, negsuc}
use stellax.Sdk.Js.{Text, parse_int_16, big_int_hex, from_char_code, hex_value, hex_all}
use stellax.Sdk.Gmp.{hex_to_string, is_zero_byte}

-- lower-case hexadecimal digits
abbrev hex_digit : ℕ → ℕ
hex_digit d = if ltb d 10 then b'0' + d else b'a' + (d - 10)

-- bytes as digits
abbrev pub hex_bytes : List ℕ → Text
hex_bytes [] = []
hex_bytes (b ∷ bs) = hex_digit (b / 16) ∷ hex_digit (b % 16) ∷ hex_bytes bs

-- a number as `k` bytes, the most significant first
abbrev pub be_bytes : ℕ → ℕ → List ℕ
be_bytes zero n = []
be_bytes (suc k) n = n / 256 ^ k % 256 ∷ be_bytes k n

-- ACTION_DEPOSIT, the recipient's 32 and 24 characters, 8 bytes of padding, and the amount in the lower
-- 16 of 32 bytes
abbrev pub encode : (recipient32 recipient24 pad8 pad16 : List ℕ) → ℕ → Text
encode r32 r24 p8 p16 amount =
    hex_bytes (0 ∷ 0 ∷ 0 ∷ 1 ∷ [])
    ++ (hex_bytes r32
        ++ (hex_bytes r24 ++ (hex_bytes p8 ++ (hex_bytes p16 ++ hex_bytes (be_bytes 16 amount)))))

abbrev pub IsChar : ℕ → Type 0
IsChar b = (0 < b) × (b < 256)

abbrev is_byte : Option ℤ → ℕ → Bool
is_byte none b = false
is_byte (some (pos n)) b = n == b
is_byte (some (negsuc n)) b = false

is_byte→eq : (v : Option ℤ) (b : ℕ) → is_byte v b ≡ true → v ≡ some (pos b)
is_byte→eq none b h = cc
is_byte→eq (some (pos n)) b h = ground (arith, ==_iff n b)
is_byte→eq (some (negsuc n)) b h = cc

-- the digits of a byte, read back
abbrev two_digits : ℕ → Text
two_digits b = hex_digit (b / 16) ∷ hex_digit (b % 16) ∷ []

first_bytes_read : ℕ → Bool
first_bytes_read zero = true
first_bytes_read (suc b) = first_bytes_read b && is_byte (parse_int_16 (two_digits b)) b

byte_is_read :
    (bound : ℕ) {b : ℕ}
    → b < bound
    → first_bytes_read bound ≡ true
    → is_byte (parse_int_16 (two_digits b)) b ≡ true
unfolding first_bytes_read
byte_is_read zero {b} lt h = absurd (omega arith)
byte_is_read (suc m) {b} lt h = elim (Bool-cases (b == m)) [
  | inl e ↦
      let here : b ≡ m = ground (arith, ==_iff b m) in
      let last : is_byte (parse_int_16 (two_digits m)) m ≡ true = ground arith in
      subst (λ c. is_byte (parse_int_16 (two_digits c)) c ≡ true) (sym here) last
  | inr e ↦ byte_is_read m (ground (arith, ==_iff b m)) (ground arith)
]

every_byte_read : first_bytes_read 256 ≡ true
unfolding first_bytes_read parse_int_16
every_byte_read = refl

parse-byte : (b : ℕ) → b < 256 → parse_int_16 (two_digits b) ≡ some (pos b)
parse-byte b h = is_byte→eq (parse_int_16 (two_digits b)) b (byte_is_read 256 h every_byte_read)

char-byte : (b : ℕ) → b < 256 → from_char_code (some (pos b)) ≡ b
unfolding from_char_code
char-byte b h = omega arith

pub hex_to_string-hex_bytes : (bs : List ℕ) → All IsChar bs → hex_to_string (hex_bytes bs) ≡ bs
unfolding hex_to_string
hex_to_string-hex_bytes [] h = refl
hex_to_string-hex_bytes (b ∷ bs) h =
    let byte = parse-byte b h.0.1 in
    let rest = hex_to_string-hex_bytes bs h.1 in
    let code : from_char_code (some (pos b)) ≡ b = char-byte b h.0.1 in
    let some_byte : is_zero_byte (some (pos b)) ≡ false = ground arith in
    rw byte (rw some_byte (rw (rest, code)))

pub length-hex_bytes : (bs : List ℕ) → length (hex_bytes bs) ≡ 2 * length bs
length-hex_bytes [] = omega arith
length-hex_bytes (b ∷ bs) = omega (arith, length-hex_bytes bs)

-- the value of a string of bytes, the most significant first
abbrev value : ℕ → List ℕ → ℕ
value acc [] = acc
value acc (b ∷ bs) = value (256 * acc + b) bs

hex_value-digit : (d : ℕ) → d < 16 → hex_value (hex_digit d) ≡ some d
unfolding hex_value
hex_value-digit d h = ground arith

hex_all-hex_bytes :
    (acc : ℕ) (bs : List ℕ)
    → All (λ b. b < 256) bs
    → hex_all acc (hex_bytes bs) ≡ some (value acc bs)
unfolding hex_all
hex_all-hex_bytes acc [] h = refl
hex_all-hex_bytes acc (b ∷ bs) h =
    let high = hex_value-digit (b / 16) (omega arith) in
    let low = hex_value-digit (b % 16) (omega arith) in
    let joined : 16 * (16 * acc + b / 16) + b % 16 ≡ 256 * acc + b = omega arith in
    rw (high, hex_all) (rw (low, hex_all) (rw joined (hex_all-hex_bytes (256 * acc + b) bs h.1)))

pow_pos : (k : ℕ) → 0 < 256 ^ k
pow_pos zero = omega arith
pow_pos (suc k) = rw pow-suc (omega (arith, pow_pos k))

zero_times : (p r : ℕ) → 0 * p + r ≡ r
zero_times p r = omega arith

mod_split : (n p : ℕ) → 0 < p → n / p % 256 * p + n % p ≡ n % (256 * p)
mod_split n p h =
    let q = n / p in
    let s = q % 256 in
    let r = n % p in
    let parts : q ≡ 256 * (q / 256) + s = omega arith in
    let whole : n ≡ 256 * p * (q / 256) + (s * p + r) =
      omega (arith, div-add-mod n p, ap (λ (t : ℕ). p * t) parts) in
    let small : s * p + r < 256 * p =
      omega (arith, mul-le-mul_right {m = s} {n = 255} p (omega arith), mod-lt n h) in
    sym (
      ap (λ (t : ℕ). t % (256 * p)) whole
      ∙ mul-add-mod_self_left (256 * p) (q / 256) (s * p + r)
      ∙ mod-eq_of_lt small)

value-be_bytes : (k acc n : ℕ) → value acc (be_bytes k n) ≡ acc * 256 ^ k + n % 256 ^ k
value-be_bytes zero acc n = omega arith
value-be_bytes (suc k) acc n =
    let p : ℕ = 256 ^ k in
    let power : 256 ^ suc k ≡ 256 * 256 ^ k = pow-suc 256 k ∙ mul_comm (256 ^ k) 256 in
    let split = mod_split n (256 ^ k) (pow_pos k) in
    rw (power, value-be_bytes k (256 * acc + n / 256 ^ k % 256) n) (omega (arith, split))

be_bytes-lt : (k n : ℕ) → All (λ b. b < 256) (be_bytes k n)
be_bytes-lt zero n = tt
be_bytes-lt (suc k) n = (omega arith, be_bytes-lt k n)

big_int_hex-cons :
    (c d : ℕ) (s : Text) → hex_value c ≡ some d → big_int_hex (c ∷ s) ≡ hex_all 0 (c ∷ s)
unfolding big_int_hex
big_int_hex-cons c d s h =
    rw (h, big_int_hex) (rw (h, hex_all) (let same : 16 * 0 + d ≡ d = omega arith in rw same))

pub big_int_hex-be_bytes :
    (k n : ℕ) → n < 256 ^ suc k → big_int_hex (hex_bytes (be_bytes (suc k) n)) ≡ some n
big_int_hex-be_bytes k n h =
    let b = n / 256 ^ k % 256 in
    big_int_hex-cons (hex_digit (b / 16)) (b / 16) (hex_digit (b % 16) ∷ hex_bytes (be_bytes k n))
      (hex_value-digit (b / 16) (omega arith))
    ∙ hex_all-hex_bytes 0 (be_bytes (suc k) n) (be_bytes-lt (suc k) n)
    ∙ ap some (value-be_bytes (suc k) 0 n ∙ zero_times (256 ^ suc k) _ ∙ mod-eq_of_lt h)

pub length-be_bytes : (k n : ℕ) → length (be_bytes k n) ≡ k
length-be_bytes zero n = refl
length-be_bytes (suc k) n = ap suc (length-be_bytes k n)

pub take_prefix : (xs ys : Text) (n : ℕ) → length xs ≡ n → take n (xs ++ ys) ≡ xs
take_prefix [] ys zero h = refl
take_prefix [] ys (suc n) h = absurd (omega arith)
take_prefix (x ∷ xs) ys zero h = absurd (omega arith)
take_prefix (x ∷ xs) ys (suc n) h = ap (◌∷◌ x) (take_prefix xs ys n (omega arith))

pub drop_prefix : (xs ys : Text) (n k : ℕ) → length xs ≡ n → drop (n + k) (xs ++ ys) ≡ drop k ys
drop_prefix [] ys zero k h = rw zero-add
drop_prefix [] ys (suc n) k h = absurd (omega arith)
drop_prefix (x ∷ xs) ys zero k h = absurd (omega arith)
drop_prefix (x ∷ xs) ys (suc n) k h = rw suc-add (drop_prefix xs ys n k (omega arith))
