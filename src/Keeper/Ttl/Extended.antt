-- ===== src/Keeper/Ttl/Extended.antt =====
-- What a tick of the extender extends.
use stellax.Base.{
  ℕ, ◌≡◌, refl, sym, ap, ◌∙◌, Bool, true, false, ◌&&◌, Option, none, some, List, [], ◌∷◌, ◌++◌,
  ◌==◌, append-nil, length, All, inl, inr, ◌⊎◌, arith,
}
use stellax.Keeper.Chain.{Tally, tally, no_tally}
use stellax.Keeper.Ttl.{TtlExtenderTarget, LedgerKey, keys_of, extend_all, outcome, tick}
use stellax.Indexer.Rows.{Text}

module _ (decodes : Text → Bool) where
  abbrev pub or_nothing : Option (List LedgerKey) → List (List LedgerKey) → List (List LedgerKey)
  or_nothing none rest = rest
  or_nothing (some keys) rest = keys ∷ rest

  -- the extensions that the targets ask for
  abbrev pub requests : List TtlExtenderTarget → List (List LedgerKey)
  requests [] = []
  requests (t ∷ ts) = elim (length t.contract_id == 0) [
    | true ↦ requests ts
    | false ↦ or_nothing (keys_of decodes t) (requests ts)
  ]

  -- a target without id, or whose keys can be built
  abbrev pub IsUsable : TtlExtenderTarget → Type 0
  IsUsable t =
      ((length t.contract_id == 0) ≡ true)
      ⊎ ((keys : List LedgerKey) × (keys_of decodes t ≡ some keys)
          × ((length t.contract_id == 0) ≡ false))

  module _ {W : Type 0} (extend_ttl : List LedgerKey → ℕ → W → Bool × W) (ledgers : ℕ) where
    -- every request once, in order: whether all succeed, and the world after them
    unfoldable pub extend_each : List (List LedgerKey) → W → Bool × W
    extend_each [] w = (true, w)
    extend_each (r ∷ rs) w =
        let (done, w') = extend_ttl r ledgers w in
        let (rest, w'') = extend_each rs w' in (done && rest, w'')

    abbrev pub verdict : Bool → Tally → Bool
    verdict ok t = ok && outcome decodes extend_ttl ledgers (some t)

    verdict-tally :
        (done ok : Bool) (t : Tally) → verdict ok (tally done t) ≡ verdict (done && ok) t
    verdict-tally true true t = refl
    verdict-tally true false t = refl
    verdict-tally false true t = ground arith
    verdict-tally false false t = refl

    extend_all-after :
        (before rest : List TtlExtenderTarget) (t : Tally) (w : W)
        → All IsUsable before
        → (t' : Tally) × (extend_all decodes extend_ttl ledgers (before ++ rest) t w
            ≡ extend_all decodes extend_ttl ledgers rest t' (extend_each (requests before) w).1)
          × (outcome decodes extend_ttl ledgers (some t')
              ≡ verdict (extend_each (requests before) w).0 t)
    unfolding extend_all extend_each
    extend_all-after [] rest t w h = (t, refl, refl)
    extend_all-after (b ∷ before) rest t w (inl e, h) =
        let (t', same, ok) = extend_all-after before rest t w h in
        (t', rw (e, extend_all, extend_each) same, rw (e, extend_each) ok)
    extend_all-after (b ∷ before) rest t w (inr (keys, k, e), h) =
        let r = extend_ttl keys ledgers w in
        let (t', same, ok) = extend_all-after before rest (tally r.0 t) r.1 h in
        (
          t',
          rw (e, k, extend_all, extend_each) same,
          rw (e, k, extend_each) (ok ∙ verdict-tally r.0 (extend_each (requests before) r.1).0 t),
        )

    resolved : (ok : Bool) → verdict ok no_tally ≡ ok
    resolved true = refl
    resolved false = refl

    -- Where the keys of every target with an id can be built, a tick asks for each of these targets once and
    -- in order, whatever the calls return, and it resolves exactly if all of them succeed.
    pub tick-extends :
        (targets : List TtlExtenderTarget) (w : W)
        → All IsUsable targets
        → tick decodes extend_ttl ledgers targets w ≡ extend_each (requests targets) w
    unfolding tick extend_all
    tick-extends targets w h =
        let (t, same, ok) = extend_all-after targets [] no_tally w h in
        let whole =
          ap (λ ts. extend_all decodes extend_ttl ledgers ts no_tally w) (sym (append-nil targets))
          ∙ same in
        rw whole (rw ok (ap (λ b. (b, (extend_each (requests targets) w).1)) (resolved _)))

    -- A target with an id whose keys cannot be built ends the tick: the targets after it are not extended,
    -- whatever they are, and the tick throws.
    pub tick-bad_target :
        (before after : List TtlExtenderTarget) (bad : TtlExtenderTarget) (w : W)
        → All IsUsable before
        → (length bad.contract_id == 0) ≡ false
        → keys_of decodes bad ≡ none
        → tick decodes extend_ttl ledgers (before ++ (bad ∷ after)) w
          ≡ (false, (extend_each (requests before) w).1)
    unfolding tick extend_all
    tick-bad_target before after bad w h e k =
        let (t, same, ok) = extend_all-after before (bad ∷ after) no_tally w h in
        rw same (rw (e, k, extend_all) refl)
