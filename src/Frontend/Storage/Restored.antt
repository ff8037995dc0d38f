-- ===== src/Frontend/Storage/Restored.antt =====
-- What is stored is restored.
use stellax.Base.{
  ℕ, zero, suc, ◌+◌, ◌-◌, ◌*◌, ◌/◌, ◌%◌, ◌<◌, ◌≤◌, ◌≡◌, refl, sym, ap, ◌∙◌, true, false, none, some,
  [], ◌∷◌, ltb, leb, ◌==◌, arith, Bool-cases, inl, inr,
}
use stellax.Base.Int.{ℤ, pos, negsuc}
use stellax.Indexer.Rows.{Text, same_text}
use stellax.Indexer.Decode.Values.{digits, to_string}
use stellax.Frontend.Storage.{
  Value, null, bool, number, string, bigint, array, object, Items, nil, cons, Fields, end, field,
  digit_run, negated, not_negated, big_int, reserved, replace, replace_items, replace_fields, get,
  to_big_int, as_bigint, revived, revived_array, revived_object, revive, revive_items,
  revive_fields,
}

digit_run-digit :
    (acc d n : ℕ) (s : Text)
    → d < 10
    → 10 * acc + d ≡ n
    → digit_run acc ((b'0' + d) ∷ s) ≡ digit_run n s
unfolding digit_run
digit_run-digit acc d n s h e =
    let low : leb b'0' (b'0' + d) ≡ true = ground (arith, h) in
    let high : leb (b'0' + d) b'9' ≡ true = ground (arith, h) in
    let value : 10 * acc + (b'0' + d - b'0') ≡ n = omega (arith, e) in
    rw (low, high) (ap (λ m. digit_run m s) value)

digit_run-digits :
    (fuel n : ℕ) (s : Text) → n < 10 + fuel → digit_run 0 (digits fuel n s) ≡ digit_run n s
unfolding digits
digit_run-digits zero n s h = digit_run-digit 0 n n s (omega (arith, h)) (omega arith)
digit_run-digits (suc fuel) n s h = elim (Bool-cases (ltb n 10)) [
  | inl e ↦ rw e (digit_run-digit 0 n n s (ground (arith, e)) (omega arith))
  | inr e ↦
      let large : 10 ≤ n = ground (arith, e) in
      rw e (
        digit_run-digits fuel (n / 10) ((b'0' + n % 10) ∷ s) (omega (arith, h, large))
        ∙ digit_run-digit (n / 10) (n % 10) n s (omega arith) (omega arith))
]

digits-front :
    (fuel n : ℕ) (s : Text) → (d : ℕ) × (rest : Text) × (digits fuel n s ≡ (b'0' + d) ∷ rest)
unfolding digits
digits-front zero n s = (n, s, refl)
digits-front (suc fuel) n s = elim (Bool-cases (ltb n 10)) [
  | inl e ↦ (n, s, rw e refl)
  | inr e ↦ let (d, rest, k) = digits-front fuel (n / 10) ((b'0' + n % 10) ∷ s) in (d, rest, rw e k)
]

big_int-unsigned :
    (d : ℕ) (s : Text) → big_int ((b'0' + d) ∷ s) ≡ not_negated (digit_run 0 ((b'0' + d) ∷ s))
unfolding big_int
big_int-unsigned d s = let digit : (b'0' + d == b'-') ≡ false = ground arith in rw digit refl

big_int-to_string : (n : ℤ) → big_int (to_string n) ≡ some n
unfolding big_int to_string
big_int-to_string (pos n) =
    let (d, rest, e) = digits-front n n [] in
    ap big_int e
    ∙ big_int-unsigned d rest
    ∙ ap (λ s. not_negated (digit_run 0 s)) (sym e)
    ∙ ap not_negated (digit_run-digits n n [] (omega arith))
big_int-to_string (negsuc n) = ap negated (digit_run-digits (suc n) (suc n) [] (omega arith))

-- no object of a value has the reserved property
unfoldable mutual
  pub Unreserved : Value → Type 0
  Unreserved null = Unit
  Unreserved (bool b) = Unit
  Unreserved (number n) = Unit
  Unreserved (string s) = Unit
  Unreserved (bigint n) = Unit
  Unreserved (array xs) = UnreservedItems xs
  Unreserved (object fs) = UnreservedFields fs

  pub UnreservedItems : Items → Type 0
  UnreservedItems nil = Unit
  UnreservedItems (cons x xs) = Unreserved x × UnreservedItems xs

  pub UnreservedFields : Fields → Type 0
  UnreservedFields end = Unit
  UnreservedFields (field k v fs) =
      (same_text k reserved ≡ false) × Unreserved v × UnreservedFields fs

get-Unreserved : (fs : Fields) → UnreservedFields fs → get reserved fs ≡ none
unfolding get Unreserved
get-Unreserved end h = refl
get-Unreserved (field k v fs) h = rw h.0 (get-Unreserved fs h.2)

revived-Unreserved : (fs : Fields) → UnreservedFields fs → revived fs ≡ some (object fs)
unfolding revived
revived-Unreserved fs h = rw (get-Unreserved fs h, revived) refl

revived-bigint : (n : ℤ) → revived (field reserved (string (to_string n)) end) ≡ some (bigint n)
unfolding revived get to_big_int same_text
revived-bigint n = ap as_bigint (big_int-to_string n)

mutual
  unfolding revive replace Unreserved

  restore : (v : Value) → Unreserved v → revive (replace v) ≡ some v
  restore null h = refl
  restore (bool b) h = refl
  restore (number n) h = refl
  restore (string s) h = refl
  restore (bigint n) h = revived-bigint n
  restore (array xs) h = ap revived_array (restore_items xs h)
  restore (object fs) h = ap revived_object (restore_fields fs h) ∙ revived-Unreserved fs h

  restore_items : (xs : Items) → UnreservedItems xs → revive_items (replace_items xs) ≡ some xs
  restore_items nil h = refl
  restore_items (cons x xs) h = rw (restore x h.0, restore_items xs h.1) refl

  restore_fields : (fs : Fields) → UnreservedFields fs → revive_fields (replace_fields fs) ≡ some fs
  restore_fields end h = refl
  restore_fields (field k v fs) h = rw (restore v h.1, restore_fields fs h.2) refl

-- A value that is stored and read back is the value again, with every bigint of any size and sign in it,
-- if none of its objects has the reserved property.
pub revive-replace : (v : Value) → Unreserved v → revive (replace v) ≡ some v
revive-replace v h = restore v h
