-- ===== src/Keeper/Nav/Median.antt =====
-- Where the median of a list stands.
use stellax.Base.{
  ℕ, zero, suc, ◌+◌, ◌-◌, ◌*◌, ◌/◌, ◌%◌, ◌<◌, ◌≤◌, ◌≡◌, true, List, [], ◌∷◌, ltb, leb, ◌==◌, length,
  sort, IsSorted, sort-IsSorted, count, count-sort, length-sort, All, inl, inr, arith, ◌⊎◌,
  Bool-cases,
}
use stellax.Keeper.Nav.{nth, middle, median}

lt_or_ge : (a b : ℕ) → (a < b) ⊎ (b ≤ a)
lt_or_ge a b = elim (Bool-cases (ltb a b)) [
  | inl e ↦ inl (ground arith)
  | inr e ↦ inr (ground arith)
]

ascending : (xs : List ℕ) → IsSorted leb (sort leb xs)
ascending xs = sort-IsSorted leb (λ a b h. ground arith) (λ a b c h k. ground arith) xs

pub All-nth : (P : ℕ → Type 0) (i : ℕ) (xs : List ℕ) → i < length xs → All P xs → P (nth xs i)
All-nth P i [] l h = absurd (omega (arith, l))
All-nth P zero (x ∷ xs) l h = h.0
All-nth P (suc i) (x ∷ xs) l h = All-nth P i xs (omega (arith, l)) h.1

count-All :
    (b x : ℕ) (xs : List ℕ)
    → b < x
    → All (λ y. leb x y ≡ true) xs
    → length xs ≤ count (λ y. ltb b y) xs
count-All b x [] k h = omega arith
count-All b x (y ∷ ys) k h = ground (arith, h.0, count-All b x ys k h.1)

-- elements of a sorted list below a bound come first
below_first :
    (a i : ℕ) (xs : List ℕ)
    → IsSorted leb xs
    → i < length xs
    → nth xs i < a
    → i < count (λ x. ltb x a) xs
below_first a i [] h l k = absurd (omega (arith, l))
below_first a zero (x ∷ xs) h l k = ground arith
below_first a (suc i) (x ∷ xs) h l k =
    let more = below_first a i xs h.1 (omega (arith, l)) k in
    let first = All-nth (λ y. leb x y ≡ true) i xs (omega (arith, l)) h.0 in ground arith

-- and those above a bound come last
above_last :
    (b i : ℕ) (xs : List ℕ)
    → IsSorted leb xs
    → i < length xs
    → b < nth xs i
    → length xs - i ≤ count (λ x. ltb b x) xs
above_last b i [] h l k = absurd (omega (arith, l))
above_last b zero (x ∷ xs) h l k = ground (arith, count-All b x xs k h.0)
above_last b (suc i) (x ∷ xs) h l k =
    let more = above_last b i xs h.1 (omega (arith, l)) k in ground arith

-- at most half of the elements are outside on a side
abbrev pub Majority : (a b : ℕ) → List ℕ → Type 0
Majority a b xs =
    (2 * count (λ x. ltb x a) xs < length xs) × (2 * count (λ x. ltb b x) xs < length xs)

nth-Majority :
    (a b i : ℕ) (xs : List ℕ)
    → IsSorted leb xs
    → Majority a b xs
    → i < length xs
    → length xs ≤ 2 * (i + 1)
    → 2 * i ≤ length xs
    → (a ≤ nth xs i) × (nth xs i ≤ b)
nth-Majority a b i xs h k l lo hi =
    let below = below_first a i xs h l in
    let above = above_last b i xs h l in
    (
      elim (lt_or_ge (nth xs i) a) [ inl e ↦ absurd (omega (arith, below e, k.0)) | inr e ↦ e ],
      elim (lt_or_ge b (nth xs i)) [ inl e ↦ absurd (omega (arith, above e, k.1)) | inr e ↦ e ],
    )

middle-Majority :
    (a b : ℕ) (xs : List ℕ)
    → IsSorted leb xs
    → Majority a b xs
    → (2 * a ≤ middle xs) × (middle xs ≤ 2 * b)
middle-Majority a b xs h k = elim (Bool-cases (length xs % 2 == 0)) [
  | inl e ↦
      let even : length xs % 2 ≡ 0 = ground arith in
      let m = length xs / 2 in
      let left =
        nth-Majority a b (m - 1) xs h k (omega (arith, even, k.0)) (omega (arith, even))
          (omega (arith)) in
      let right =
        nth-Majority a b m xs h k (omega (arith, even, k.0)) (omega (arith, even))
          (omega (arith, even)) in
      rw e (omega (arith, left.0, right.0), omega (arith, left.1, right.1))
  | inr e ↦
      let odd : length xs % 2 ≡ 1 = ground arith in
      let m = length xs / 2 in
      let at =
        nth-Majority a b m xs h k (omega (arith, odd)) (omega (arith, odd)) (omega (arith, odd)) in
      rw e (omega (arith, at.0), omega (arith, at.1))
]

-- More than half of the elements keep the median between their bounds.
pub median-Majority :
    (a b : ℕ) (xs : List ℕ) → Majority a b xs → (2 * a ≤ median xs) × (median xs ≤ 2 * b)
unfolding median
median-Majority a b xs h =
    let size = length-sort leb xs in
    let low = count-sort leb (λ x. ltb x a) xs in
    let high = count-sort leb (λ x. ltb b x) xs in
    middle-Majority a b (sort leb xs) (ascending xs)
      (omega (arith, size, low, h.0), omega (arith, size, high, h.1))
