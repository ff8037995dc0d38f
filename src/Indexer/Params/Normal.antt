-- ===== src/Indexer/Params/Normal.antt =====
-- A parsed feed is spelled as the tables spell it.
use stellax.Base.{
  some_eq, absent, ℕ, ◌≡◌, refl, subst, true, false, ◌&&◌, none, some, [], ◌∷◌, ◌-◌, leb,
  if◌then◌else◌, arith, Bool-cases, inl, inr, ◌⊎◌,
}
use stellax.Indexer.Rows.{Text, to_upper_case}
use stellax.Indexer.Params.{all_of, is_feed_char, is_feed, parse_feed}
use stellax.Sdk.Js.{trim}

upper-feed_char :
    (c : ℕ) → is_feed_char c ≡ true → (if leb b'a' c && leb c b'z' then c - 32 else c) ≡ c
upper-feed_char c h = ground (arith, h)

upper-of_feed : (s : Text) → all_of is_feed_char s ≡ true → to_upper_case s ≡ s
upper-of_feed [] h = refl
upper-of_feed (c ∷ s) h =
    let first : is_feed_char c ≡ true = ground (arith, h) in
    let others : all_of is_feed_char s ≡ true = ground (arith, h) in
    rw (upper-feed_char c first, upper-of_feed s others) refl

parsed :
    (s : Text) {feed : Text}
    → (is_feed s ≡ true) ⊎ (is_feed s ≡ false)
    → (if is_feed s then some s else none) ≡ some feed
    → to_upper_case feed ≡ feed
parsed s (inr e) h = absurd (absent (rw e at h))
parsed s (inl e) h =
    let chars : all_of is_feed_char s ≡ true = ground (arith, e) in
    subst (λ f. to_upper_case f ≡ f) (some_eq (rw e at h)) (upper-of_feed s chars)

-- The tables keep a feed in upper case; what `parseFeed` returns is already so.
parse_feed-upper :
    (raw : Text) {feed : Text} → parse_feed (some raw) ≡ some feed → to_upper_case feed ≡ feed
unfolding parse_feed
parse_feed-upper raw h =
    parsed (to_upper_case (trim raw)) (Bool-cases (is_feed (to_upper_case (trim raw)))) h
