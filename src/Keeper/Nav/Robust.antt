-- ===== src/Keeper/Nav/Robust.antt =====
-- How far the chosen price can be from the quotes of an honest majority, and what diverging quotes do.
use native.Mathlib.Nat.{mul-le-mul_right, mul-sub}
use stellax.Base.{
  ℕ, ◌+◌, ◌-◌, ◌*◌, ◌/◌, ◌%◌, ◌<◌, ◌≤◌, ◌≡◌, refl, ap, ◌∙◌, subst, Bool, true, false, Option, none,
  some, List, [], ◌∷◌, map, leb, ◌==◌, length, filter, sort, insert, All, All-mono, All-sort,
  All-filter_test, All-Elem_self, Elem, length-sort, arith, inl, inr, Bool-cases,
}
use stellax.Keeper.Nav.{
  RwaQuote, price_of, is_fresh, distance, survives, middle, median, Selected, chosen, select_fresh,
  select_best_price, static_sample, from_selection, fetch,
}
use stellax.Keeper.Nav.Median.{All-nth, Majority, median-Majority}

-- a price between two bounds, both scaled by 20_000
abbrev Between : (lo hi : ℕ) → ℕ → Type 0
Between lo hi x = (lo ≤ 20_000 * x) × (20_000 * x ≤ hi)

middle-All :
    (lo hi : ℕ) (xs : List ℕ)
    → 0 < length xs
    → All (Between lo hi) xs
    → (lo ≤ 10_000 * middle xs) × (10_000 * middle xs ≤ hi)
middle-All lo hi xs l h = elim (Bool-cases (length xs % 2 == 0)) [
  | inl e ↦
      let even : length xs % 2 ≡ 0 = ground arith in
      let m = length xs / 2 in
      let left = All-nth (Between lo hi) (m - 1) xs (omega (arith, l)) h in
      let right = All-nth (Between lo hi) m xs (omega (arith, l)) h in
      rw e (omega (arith, left.0, right.0), omega (arith, left.1, right.1))
  | inr e ↦
      let m = length xs / 2 in
      let at = All-nth (Between lo hi) m xs (omega (arith, l)) h in
      rw e (omega (arith, at.0), omega (arith, at.1))
]

median-All :
    (lo hi : ℕ) (xs : List ℕ)
    → 0 < length xs
    → All (Between lo hi) xs
    → (lo ≤ 10_000 * median xs) × (10_000 * median xs ≤ hi)
unfolding median
median-All lo hi xs l h =
    middle-All lo hi (sort leb xs) (omega (arith, length-sort leb xs, l))
      (All-sort leb (Between lo hi) xs h)

All-prices :
    (lo hi : ℕ) (qs : List RwaQuote)
    → All (λ q. Between lo hi (price_of q)) qs
    → All (Between lo hi) (map price_of qs)
All-prices lo hi [] h = tt
All-prices lo hi (q ∷ qs) h = (h.0, All-prices lo hi qs h.1)

surviving :
    (bps c : ℕ) (q : RwaQuote)
    → survives bps c q ≡ true
    → Between (c * 10_000 - c * bps) (c * 10_000 + c * bps) (price_of q)
surviving bps c q h = ground arith

-- the bounds that an honest majority between a and b gives
abbrev pub Within : (a b bps : ℕ) → ℕ → Type 0
Within a b bps price =
    (2 * a * (10_000 - bps) ≤ 10_000 * price) × (10_000 * price ≤ 2 * b * (10_000 + bps))

widened :
    (a b bps c price : ℕ)
    → (2 * a ≤ c) × (c ≤ 2 * b)
    → (c * 10_000 - c * bps ≤ 10_000 * price) × (10_000 * price ≤ c * 10_000 + c * bps)
    → Within a b bps price
widened a b bps c price h k =
    let low = mul-le-mul_right (10_000 - bps) h.0 in
    let high = mul-le-mul_right (10_000 + bps) h.1 in
    let parts = mul-sub c 10_000 bps in (omega (arith, low, parts, k.0), omega (arith, high, k.1))

-- a property of the selection, where there is one
abbrev Selects : (Selected → Type 0) → Option Selected → Type 0
Selects P none = Unit
Selects P (some s) = P s

-- the sources of a selection: some quotes, all of a kind
abbrev pub FromSome : (RwaQuote → Type 0) → List RwaQuote → Type 0
FromSome P sources = (0 < length sources) × All P sources

module _ (a b bps : ℕ) (P : RwaQuote → Type 0) where
  abbrev Sound : Selected → Type 0
  Sound s = Within a b bps s.price × FromSome P s.sources

  chosen-Sound :
      (c : ℕ) (qs : List RwaQuote)
      → (2 * a ≤ c) × (c ≤ 2 * b)
      → All (λ q. P q × (survives bps c q ≡ true)) qs
      → Selects Sound (chosen qs)
  chosen-Sound c [] h k = tt
  chosen-Sound c (q ∷ qs) h k =
      let lo = c * 10_000 - c * bps in
      let hi = c * 10_000 + c * bps in
      let near =
        All-mono (λ x. P x × (survives bps c x ≡ true)) (λ x. Between lo hi (price_of x)) (q ∷ qs)
          (λ x s. surviving bps c x s.1) k in
      let m =
        median-All lo hi (map price_of (q ∷ qs)) (omega arith) (All-prices lo hi (q ∷ qs) near) in
      (
        widened a b bps c (median (map price_of (q ∷ qs))) h m,
        (omega arith, All-mono (λ x. P x × (survives bps c x ≡ true)) P (q ∷ qs) (λ x s. s.0) k),
      )

  select_fresh-Sound :
      (qs : List RwaQuote)
      → All P qs
      → Majority a b (map price_of qs)
      → Selects Sound (select_fresh bps qs)
  unfolding select_fresh
  select_fresh-Sound [] h k = tt
  select_fresh-Sound (q ∷ []) h k =
      let p = price_of q in
      let inside : (a ≤ p) × (p ≤ b) = ground (arith, k.0, k.1) in
      (
        widened a b bps (2 * p) (2 * p) (omega (arith, inside.0), omega (arith, inside.1))
            (omega arith, omega arith),
        (omega arith, h),
      )
  select_fresh-Sound (q ∷ r ∷ qs) h k =
      let c = median (map price_of (q ∷ r ∷ qs)) in
      chosen-Sound c (filter (survives bps c) (q ∷ r ∷ qs))
        (median-Majority a b (map price_of (q ∷ r ∷ qs)) k)
        (All-filter_test P (survives bps c) (q ∷ r ∷ qs) h)

-- If fewer than half of the fresh quotes are below a and fewer than half above b, a price that is chosen
-- lies between these bounds widened by the tolerance, however far away the other quotes are. It has at
-- least one source, and each source is one of the quotes and fresh.
pub select_best_price-robust :
    (a b now max_age bps : ℕ) (quotes : List RwaQuote) {s : Selected}
    → Majority a b (map price_of (filter (is_fresh now max_age) quotes))
    → select_best_price now max_age bps quotes ≡ some s
    → Within a b bps s.price
      × FromSome (λ q. Elem q quotes × (is_fresh now max_age q ≡ true)) s.sources
unfolding select_best_price
select_best_price-robust a b now max_age bps quotes h e =
    let P : RwaQuote → Type 0 = λ q. Elem q quotes × (is_fresh now max_age q ≡ true) in
    subst (Selects (Sound a b bps P)) e (
      select_fresh-Sound a b bps P (filter (is_fresh now max_age) quotes)
        (All-filter_test (λ q. Elem q quotes) (is_fresh now max_age) quotes (All-Elem_self quotes))
        h)

filter_both :
    (p : RwaQuote → Bool) (q r : RwaQuote)
    → p q ≡ true
    → p r ≡ true
    → filter p (q ∷ r ∷ []) ≡ q ∷ r ∷ []
filter_both p q r h k = rw (h, k) refl

filter_none :
    (p : RwaQuote → Bool) (q r : RwaQuote) → p q ≡ false → p r ≡ false → filter p (q ∷ r ∷ []) ≡ []
filter_none p q r h k = rw (h, k) refl

median-pair : (x y : ℕ) → median (x ∷ y ∷ []) ≡ x + y
unfolding median sort insert
median-pair x y = elim (Bool-cases (leb x y)) [ inl e ↦ rw e refl | inr e ↦ rw e (omega arith) ]

rejected :
    (bps : ℕ) (q r : RwaQuote)
    → (price_of q + price_of r) * bps < distance (price_of q) (price_of r) * 10_000
    → (survives bps (price_of q + price_of r) q ≡ false)
      × (survives bps (price_of q + price_of r) r ≡ false)
rejected bps q r d = (ground arith, ground arith)

select_fresh-diverging :
    (bps : ℕ) (q r : RwaQuote)
    → (price_of q + price_of r) * bps < distance (price_of q) (price_of r) * 10_000
    → select_fresh bps (q ∷ r ∷ []) ≡ none
unfolding select_fresh
select_fresh-diverging bps q r d =
    let none_left = rejected bps q r d in
    ap (λ c. chosen (filter (survives bps c) (q ∷ r ∷ []))) (median-pair (price_of q) (price_of r))
    ∙ ap chosen (filter_none (survives bps (price_of q + price_of r)) q r none_left.0 none_left.1)

-- Two fresh quotes whose difference is more than the tolerance around their mean reject each other: no
-- price is chosen, and the static price of the symbol is returned with the current time although both
-- sources answered.
pub fetch-diverging :
    (now max_age bps fallback : ℕ) (q r : RwaQuote)
    → is_fresh now max_age q ≡ true
    → is_fresh now max_age r ≡ true
    → (price_of q + price_of r) * bps < distance (price_of q) (price_of r) * 10_000
    → fetch now max_age bps (some fallback) (q ∷ r ∷ []) ≡ static_sample now (some fallback)
unfolding fetch select_best_price select_fresh
fetch-diverging now max_age bps fallback q r h k d =
    ap (λ fresh. from_selection now (some fallback) (select_fresh bps fresh))
      (filter_both (is_fresh now max_age) q r h k)
    ∙ ap (from_selection now (some fallback)) (select_fresh-diverging bps q r d)
