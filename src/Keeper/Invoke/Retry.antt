-- ===== src/Keeper/Invoke/Retry.antt =====
-- The retry loop against its specification: the first attempt that decides, within the budget.
use Prim.Native.String.{String}
use native.Mathlib.Nat.{pow-suc, add-zero, zero-add}
use native.Mathlib.Numerals.{add-one}
use stellax.Base.{
  ℕ, zero, suc, ◌+◌, ◌*◌, ◌^◌, ◌≤◌, ◌<◌, ◌≡◌, refl, sym, ap, ◌∙◌, Bool, true, false, Option, none,
  some, List, [], ◌∷◌, ◌++◌, append-nil, append_assoc, arith, not, if◌then◌else◌, inl, inr, ◌⊎◌,
  Bool-cases,
}
use stellax.Keeper.Invoke.{
  Outcome, ok, threw, is_deterministic, Ending, resolved, rethrown, exhausted, Trace, retry,
  invoke_inner,
}

-- Waits of 500 ms, doubled each time: those after attempts `attempt`, …, `attempt + k - 1`.
abbrev pub backoff : (attempt k : ℕ) → List ℕ
backoff attempt zero = []
backoff attempt (suc k) = (500 * 2 ^ attempt) ∷ backoff (attempt + 1) k

Outcome-cases :
    {A : Type 0} (o : Outcome A) → ((a : A) × (o ≡ ok a)) ⊎ ((msg : String) × (o ≡ threw msg))
Outcome-cases (ok a) = inl (a, refl)
Outcome-cases (threw msg) = inr (msg, refl)

abbrev pub sum : List ℕ → ℕ
sum [] = 0
sum (x ∷ xs) = x + sum xs

pub sum-backoff :
    (attempt k : ℕ) → sum (backoff attempt k) + 500 * 2 ^ attempt ≡ 500 * 2 ^ (attempt + k)
sum-backoff attempt zero = rw add-zero (omega arith)
sum-backoff attempt (suc k) =
    let step : 2 ^ (attempt + 1) ≡ 2 * 2 ^ attempt = simp (add-one, pow-suc) (omega arith) in
    let shift : attempt + 1 + k ≡ attempt + suc k = omega arith in
    omega (arith, sum-backoff (attempt + 1) k, step, ap (λ (n : ℕ). 2 ^ n) shift)

abbrev pub is_transient : {A : Type 0} → Outcome A → Bool
is_transient (ok a) = false
is_transient (threw msg) = not (is_deterministic msg)

-- what the last attempt made decides
abbrev pub ending_of : {A : Type 0} → Outcome A → Ending A
ending_of (ok a) = resolved a
ending_of (threw msg) = if is_deterministic msg then rethrown msg else exhausted (some msg)

module _ {A W : Type 0} where
  module _ (try_once : W → Outcome A × W) where
    -- the world after `n` attempts, and the outcome of attempt `n`
    abbrev pub after : ℕ → W → W
    after zero w = w
    after (suc n) w = after n (try_once w).1

    abbrev pub outcome : ℕ → W → Outcome A
    outcome n w = (try_once (after n w)).0

    -- The loop from round `attempt` on, with `l` retries left, makes `k + 1` attempts.
    pub record Decided (l attempt : ℕ) (delays : List ℕ) (w : W) (t : Trace A W) : Type 0 where
      pub k : ℕ
      pub within : k ≤ l
      pub counted : t.attempts ≡ attempt + k + 1
      pub transient : (j : ℕ) → j < k → is_transient (outcome j w) ≡ true
      pub decided : t.ending ≡ ending_of (outcome k w)
      pub stopped : k < l → is_transient (outcome k w) ≡ false
      pub world : t.world ≡ after (suc k) w
      pub slept : t.delays ≡ delays ++ backoff attempt k

    -- a loop that leaves at its first attempt
    leave :
        (l attempt : ℕ) (delays : List ℕ) (w : W)
        → (l ≡ 0) ⊎ (is_transient (outcome 0 w) ≡ false)
        → Decided l attempt delays w (record {
          ending = ending_of (outcome 0 w);
          attempts = attempt + 1;
          delays = delays;
          world = (try_once w).1;
        })
    leave l attempt delays w h = record {
      k = 0;
      within = omega arith;
      counted = omega arith;
      transient = λ j k. absurd (omega arith);
      decided = refl;
      stopped = λ k. ground arith;
      world = refl;
      slept = sym (append-nil delays);
    }

    -- a loop that goes on after its first attempt
    go_on :
        (l attempt : ℕ) (delays : List ℕ) (w : W) (t : Trace A W)
        → is_transient (outcome 0 w) ≡ true
        → Decided l (attempt + 1) (delays ++ ((500 * 2 ^ attempt) ∷ [])) (try_once w).1 t
        → Decided (suc l) attempt delays w t
    go_on l attempt delays w t h d = record {
      k = suc d.k;
      within = omega (arith, d.within);
      counted = omega (arith, d.counted);
      transient = earlier;
      decided = d.decided;
      stopped = λ k. d.stopped (omega arith);
      world = d.world;
      slept = d.slept ∙ append_assoc delays ((500 * 2 ^ attempt) ∷ []) (backoff (attempt + 1) d.k);
    }
      where
        earlier : (j : ℕ) → j < suc d.k → is_transient (outcome j w) ≡ true
        earlier zero k = h
        earlier (suc j) k = d.transient j (omega arith)

    pub retry-Decided :
        (l attempt : ℕ) (last : Option String) (delays : List ℕ) (w : W)
        → Decided l attempt delays w (retry try_once (suc l) attempt last delays w)
    unfolding retry
    retry-Decided zero attempt last delays w =
        let left = leave 0 attempt delays w (inl refl) in
        elim (Outcome-cases (try_once w).0) [
          | inl (a, e) ↦ rw (e, retry) (rw e at left)
          | inr (msg, e) ↦ elim (Bool-cases (is_deterministic msg)) [
            | inl d ↦ rw (e, retry) (rw d (rw d at (rw e at left)))
            | inr d ↦ rw (e, retry) (rw d (rw d at (rw e at left)))
          ]
        ]
    retry-Decided (suc l) attempt last delays w = elim (Outcome-cases (try_once w).0) [
      | inl (a, e) ↦
          let left = leave (suc l) attempt delays w (inr (rw e refl)) in
          rw (e, retry) (rw e at left)
      | inr (msg, e) ↦ elim (Bool-cases (is_deterministic msg)) [
        | inl d ↦
            let left = leave (suc l) attempt delays w (inr (rw e (rw d refl))) in
            rw (e, retry) (rw d (rw d at (rw e at left)))
        | inr d ↦
            rw (e, retry)
              (rw d (
                go_on l attempt delays w _ (rw e (rw d refl)) (
                  retry-Decided l (attempt + 1) (some msg) (delays ++ ((500 * 2 ^ attempt) ∷ []))
                    (try_once w).1)))
      ]
    ]

    -- `invoke` with `max_retries` makes `k + 1` attempts, at most one more than the retries allowed. All
    -- before the last one failed with an error that may pass; the last one decides how it ends, and
    -- unless the budget is spent the last one is a result or an error that cannot pass. It slept 500 ms,
    -- doubled each time, between attempts and not after the last one: 500 * (2 ^ k - 1) ms in all.
    pub invoke_inner-Decided :
        (max_retries : ℕ) (w : W)
        → (d : Decided max_retries 0 [] w (invoke_inner try_once max_retries w)) × ((invoke_inner
              try_once max_retries w).attempts
            ≤ max_retries + 1)
          × (sum (invoke_inner try_once max_retries w).delays + 500 ≡ 500 * 2 ^ d.k)
    unfolding invoke_inner
    invoke_inner-Decided max_retries w =
        let d = retry-Decided max_retries 0 none [] w in
        (d, omega (arith, d.counted, d.within), rw d.slept (rw zero-add at (sum-backoff 0 d.k)))
