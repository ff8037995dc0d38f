-- ===== src/Keeper/Redstone/Complete.antt =====
-- What a fetched payload holds.
use stellax.Base.{
  some_eq, absent, ℕ, ◌≡◌, ◌≤◌, ◌<◌, refl, sym, ap, ◌∙◌, subst, Bool, true, false, Option, none,
  some, List, [], ◌∷◌, ◌++◌, append-nil, append_assoc, ltb, length, if◌then◌else◌, All, Bool-cases,
  Option-cases, inl, inr, ◌⊎◌, arith,
}
use stellax.Indexer.Rows.{Text}
use stellax.Keeper.Redstone.{RedStonePayload, unique_feeds, collect, payload_of, fetch}

module _ {P : Type 0} (serialize : List P → Text) (unique_signers : ℕ) where
  abbrev pub all_packages : (Text → List P) → List Text → List P
  all_packages packages [] = []
  all_packages packages (f ∷ fs) = packages f ++ all_packages packages fs

  -- what a payload promises
  abbrev pub Holds : (Text → List P) → List Text → ℕ → RedStonePayload → Type 0
  Holds packages feeds now p =
      All (λ f. unique_signers ≤ length (packages f)) feeds
      × (p.feeds ≡ feeds)
      × (p.bytes ≡ serialize (all_packages packages feeds))
      × (0 < length p.bytes)

  collected :
      (packages : Text → List P) (feeds : List Text) (signed : List P) {all : List P}
      → collect serialize unique_signers packages feeds signed ≡ some all
      → All (λ f. unique_signers ≤ length (packages f)) feeds
        × (all ≡ signed ++ all_packages packages feeds)
  unfolding collect
  collected packages [] signed {all = all} h =
      let same : signed ≡ all = some_eq h in (tt, sym same ∙ sym (append-nil signed))
  collected packages (f ∷ fs) signed {all = all} h =
      let rest = collect serialize unique_signers packages fs (signed ++ packages f) in
      let at : Bool → Type 0 = λ b. (if b then none else rest) ≡ some all in
      elim (Bool-cases (ltb (length (packages f)) unique_signers)) [
        | inl e ↦ absurd (absent (subst at e h))
        | inr e ↦
            let more = collected packages fs (signed ++ packages f) (subst at e h) in
            (
              (ground (arith, e), more.0),
              more.1 ∙ append_assoc signed (packages f) (all_packages packages fs),
            )
      ]

  serialized :
      (packages : Text → List P) (feeds : List Text) (now : ℕ) (all : List P) {p : RedStonePayload}
      → All (λ f. unique_signers ≤ length (packages f)) feeds
      → all ≡ all_packages packages feeds
      → payload_of serialize unique_signers now feeds (some all) ≡ some p
      → (ltb 0 (length (serialize all)) ≡ true) ⊎ (ltb 0 (length (serialize all)) ≡ false)
      → Holds packages feeds now p
  serialized packages feeds now all enough same k (inr e) = absurd (absent (rw e at k))
  serialized packages feeds now all enough same k (inl e) =
      subst (Holds packages feeds now) (some_eq (rw e at k))
        (enough, refl, ap serialize same, ground (arith, e))

  payload-Holds :
      (packages : Text → List P) (feeds : List Text) (now : ℕ) {p : RedStonePayload}
      → payload_of serialize unique_signers now feeds
          (collect serialize unique_signers packages feeds [])
        ≡ some p
      → Holds packages feeds now p
  payload-Holds packages feeds now {p = p} h =
      elim (Option-cases (collect serialize unique_signers packages feeds [])) [
        | inl e ↦
            absurd
              (absent (subst (λ o. payload_of serialize unique_signers now feeds o ≡ some p) e h))
        | inr (all, e) ↦
            let (enough, same) = collected packages feeds [] e in
            let k = subst (λ o. payload_of serialize unique_signers now feeds o ≡ some p) e h in
            serialized packages feeds now all enough same k
              (Bool-cases (ltb 0 (length (serialize all))))
      ]

  -- A fetched payload is made of the answer for the distinct trimmed feeds: each of them has at least the
  -- required number of signed packages, the bytes are those of all packages in the feeds' order, and
  -- they are not empty.
  pub fetch-Holds :
      (request : List Text → Option (Text → List P)) (now : ℕ) (feeds : List Text)
      {p : RedStonePayload}
      → fetch serialize unique_signers request now feeds ≡ some p
      → (packages : Text → List P) × (request (unique_feeds feeds) ≡ some packages)
        × Holds packages (unique_feeds feeds) now p
  unfolding fetch
  fetch-Holds request now [] h = absurd (absent h)
  fetch-Holds request now (f ∷ fs) {p = p} h =
      elim (Option-cases (request (unique_feeds (f ∷ fs)))) [
        | inl e ↦ absurd (absent (rw (e, fetch) at h))
        | inr (packages, e) ↦
            (packages, e, payload-Holds packages (unique_feeds (f ∷ fs)) now (rw (e, fetch) at h))
      ]
