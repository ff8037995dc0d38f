-- ===== src/Keeper/Sweeps/Outcome.antt =====
-- What the sweeps call and when they fail.
use Prim.Native.String.{String}
use text.Mathlib.Text.{◌==◌ as str_eq}
use stellax.Base.{
  ℕ, ◌≡◌, refl, ap, ◌∙◌, subst, Bool, true, false, not, List, [], ◌∷◌, map, ltb, filter, length,
  arith, All, All-mono, Bool-cases, inl, inr, ◌↔◌, ◌<◌, ◌≤◌,
}
use stellax.Keeper.Chain.{
  Chain, Invocation, Tally, tally, no_tally, try_each, run_all, try_each-world, try_each-total,
}
use stellax.Keeper.Sweeps.{
  funding_call, roll_call, all_failed, Epoch, get_current_epoch_end, update_all, roll_all,
}

not-false : (b : Bool) → not b ≡ false → b ≡ true
not-false false h = cc
not-false true h = refl

module _ {W : Type 0} (chain : Chain W) where
  -- each call of a run fails
  abbrev pub AllFail : List Invocation → W → Type 0
  AllFail [] w = Unit
  AllFail (i ∷ is) w = ((chain i w).0 ≡ false) × AllFail is (chain i w).1

  ok_le : (is : List Invocation) (t : Tally) (w : W) → t.ok ≤ (try_each chain is t w).0.ok
  unfolding try_each
  ok_le [] t w = omega arith
  ok_le (i ∷ is) t w = ground (arith, ok_le is (tally (chain i w).0 t) (chain i w).1)

  ok-AllFail :
      (is : List Invocation) (t : Tally) (w : W)
      → AllFail is w
      → (try_each chain is t w).0.ok ≡ t.ok
  unfolding try_each
  ok-AllFail [] t w h = refl
  ok-AllFail (i ∷ is) t w h = ok-AllFail is (tally (chain i w).0 t) (chain i w).1 h.1 ∙ rw h.0 refl

  AllFail-of_ok :
      (is : List Invocation) (t : Tally) (w : W)
      → (try_each chain is t w).0.ok ≡ t.ok
      → AllFail is w
  unfolding try_each
  AllFail-of_ok [] t w h = tt
  AllFail-of_ok (i ∷ is) t w h = elim (Bool-cases (chain i w).0) [
    | inl e ↦
        let more = ok_le is (tally true t) (chain i w).1 in
        let same = subst (λ b. (try_each chain is (tally b t) (chain i w).1).0.ok ≡ t.ok) e h in
        absurd (omega (arith, more, same))
    | inr e ↦ (
      e,
      AllFail-of_ok is (tally false t) (chain i w).1
          (subst (λ b. (try_each chain is (tally b t) (chain i w).1).0.ok ≡ t.ok) e h),
    )
  ]

  all_failed_iff :
      (is : List Invocation) (w : W)
      → (all_failed (try_each chain is no_tally w).0 ≡ true) ↔ ((0 < length is) × AllFail is w)
  all_failed_iff is w =
      let total = try_each-total chain is no_tally w in
      let to = AllFail-of_ok is no_tally w in
      let from = ok-AllFail is no_tally w in
      (
        (λ h.
            let zero_ok : (try_each chain is no_tally w).0.ok ≡ 0 = ground arith in
            let some_failed : 0 < (try_each chain is no_tally w).0.failed = ground arith in
            (omega (arith, total, zero_ok, some_failed), to zero_ok)),
        λ h. ground (arith, total, from h.1),
      )

  -- The funding sweep makes one call for each market, in order and whatever the calls return, and it throws
  -- exactly if there is a market and every call failed.
  pub update_all-throws_iff :
      (contract : String) (markets : List ℕ) (w : W)
      → let calls = map (funding_call contract) markets in
        ((update_all chain contract markets w).1 ≡ run_all chain calls w)
        × (((update_all chain contract markets w).0 ≡ false)
            ↔ ((0 < length markets) × AllFail calls w))
  unfolding update_all run_all
  update_all-throws_iff contract [] w = (refl, (λ h. cc, λ h. absurd (omega (arith, h.0))))
  update_all-throws_iff contract (m ∷ ms) w =
      let calls = map (funding_call contract) (m ∷ ms) in
      let iff = all_failed_iff calls w in
      (
        try_each-world chain calls no_tally w,
        (λ h. (omega arith, (iff.0 (not-false _ h)).1), λ h. ap not (iff.1 (omega arith, h.1))),
      )

abbrev pub due : {W : Type 0} → (String → W → Epoch) → ℕ → W → String → Bool
due epoch now w v = not (ltb now (get_current_epoch_end (epoch v w)))

abbrev pub AllDistinct : List String → Type 0
AllDistinct [] = Unit
AllDistinct (v ∷ vs) = All (λ u. str_eq v u ≡ false) vs × AllDistinct vs

module _ {W : Type 0} (chain : Chain W) (epoch : String → W → Epoch)
    (apart : (v u : String) (w : W)
      → str_eq v u ≡ false
      → epoch u (chain (roll_call v) w).1 ≡ epoch u w) where
  filter_same :
      (p q : String → Bool) (vs : List String) → All (λ v. p v ≡ q v) vs → filter p vs ≡ filter q vs
  filter_same p q [] h = refl
  filter_same p q (v ∷ vs) h = rw (h.0, filter_same p q vs h.1) refl

  -- Where rolling a vault moves no other vault's epoch, a sweep over distinct vaults rolls exactly those
  -- whose epoch had ended when it began, each once and in order, whatever the calls return.
  pub roll_all-due :
      (now : ℕ) (vaults : List String) (w : W)
      → AllDistinct vaults
      → roll_all chain epoch now vaults w
        ≡ run_all chain (map roll_call (filter (due epoch now w) vaults)) w
  unfolding roll_all run_all
  roll_all-due now [] w h = refl
  roll_all-due now (v ∷ vs) w h = elim (Bool-cases (ltb now (get_current_epoch_end (epoch v w)))) [
    | inl e ↦ rw (e, roll_all) (roll_all-due now vs w h.1)
    | inr e ↦
        rw (e, roll_all)
          (roll_all-due now vs (chain (roll_call v) w).1 h.1
            ∙ rw
                (filter_same (due epoch now (chain (roll_call v) w).1) (due epoch now w) vs (
                  All-mono (λ u. str_eq v u ≡ false)
                    (λ u. due epoch now (chain (roll_call v) w).1 u ≡ due epoch now w u) vs
                    (λ u k. ap (λ t. not (ltb now (get_current_epoch_end t))) (apart v u w k)) h.0))
                refl)
  ]
