-- ===== src/Keeper/Bridge/Calls.antt =====
-- The calls that the bridge keeper makes for a deposit.
use Prim.Native.String.{String}
use stellax.Base.{
  ℕ, ◌≤◌, ◌≡◌, refl, sym, subst, ◌∙◌, Bool, true, false, none, some, List, [], ◌∷◌, ◌++◌, ◌||◌,
  length, length-append, ◌==◌, if◌then◌else◌, count, arith, Bool-cases, Option-cases, inl, inr,
}
use stellax.Keeper.Chain.{Chain, Invocation, bridge_collateral_in, Log, recording}
use stellax.Sdk.Js.{Text}
use stellax.Keeper.Bridge.{
  GmpEvent, BridgeKeeper, has, credit_of, Api, fetch_pending_deposits, process_deposit, process_all,
  tick,
}

abbrev pub is_event : ℕ → GmpEvent → Bool
is_event id ev = ev.id == id

-- whether some call of a log resolved
abbrev pub resolved : Log → Bool
resolved [] = false
resolved ((i, true) ∷ log) = true
resolved ((i, false) ∷ log) = resolved log

-- Nothing follows a call that resolved.
abbrev pub Ended : Log → Type 0
Ended [] = Unit
Ended ((i, true) ∷ log) = length log ≡ 0
Ended ((i, false) ∷ log) = Ended log

resolved-append : (xs ys : Log) → resolved (xs ++ ys) ≡ (resolved xs || resolved ys)
resolved-append [] ys = refl
resolved-append ((i, true) ∷ xs) ys = refl
resolved-append ((i, false) ∷ xs) ys = resolved-append xs ys

pub Ended-after_failures : (xs ys : Log) → resolved xs ≡ false → Ended ys → Ended (xs ++ ys)
Ended-after_failures [] ys h e = e
Ended-after_failures ((i, true) ∷ xs) ys h e = cc
Ended-after_failures ((i, false) ∷ xs) ys h e = Ended-after_failures xs ys h e

pub Ended-one : (xs ys : Log) → length xs ≤ 1 → length ys ≡ 0 → Ended (xs ++ ys)
Ended-one [] [] h e = tt
Ended-one [] (y ∷ ys) h e = absurd (omega (arith, e))
Ended-one ((i, true) ∷ xs) ys h e = omega (arith, length-append xs ys, h, e)
Ended-one ((i, false) ∷ xs) ys h e = Ended-one xs ys (omega (arith, h)) e

module _ {W : Type 0} (chain : Chain W) (bridge : String) where
  -- the calls that processing an event makes
  unfoldable pub deposit_calls : GmpEvent → BridgeKeeper → W → Log
  deposit_calls ev s w = (process_deposit (recording chain) bridge ev s (w, [])).1.1

  -- the calls that a batch makes for an id, and those that a sequence of ticks makes
  unfoldable pub calls_in : ℕ → List GmpEvent → BridgeKeeper → W → Log
  calls_in id [] s w = []
  calls_in id (ev ∷ evs) s w =
      (if is_event id ev then deposit_calls ev s w else [])
      ++ calls_in id evs (process_deposit chain bridge ev s w).0
          (process_deposit chain bridge ev s w).1

  unfoldable pub run_calls : ℕ → List (Api × ℕ) → BridgeKeeper → W → Log
  run_calls id [] s w = []
  run_calls id ((api, now) ∷ ticks) s w =
      calls_in id (fetch_pending_deposits api s) s w
      ++ run_calls id ticks (tick chain bridge api now s w).0 (tick chain bridge api now s w).1

  abbrev invocation : Text × ℕ → Invocation
  invocation credit = record {
    contract = bridge;
    call = bridge_collateral_in credit.0 credit.1;
    max_retries = 3;
  }

  deposit_calls-none :
      (ev : GmpEvent) (s : BridgeKeeper) (w : W) → credit_of ev ≡ none → deposit_calls ev s w ≡ []
  unfolding deposit_calls process_deposit
  deposit_calls-none ev s w e = rw (e, deposit_calls, process_deposit) refl

  deposit_calls-some :
      (ev : GmpEvent) (s : BridgeKeeper) (w : W) (credit : Text × ℕ)
      → credit_of ev ≡ some credit
      → deposit_calls ev s w ≡ (invocation credit, (chain (invocation credit) w).0) ∷ []
  unfolding deposit_calls process_deposit
  deposit_calls-some ev s w credit e = rw (e, deposit_calls, process_deposit) refl

  length-deposit_calls :
      (ev : GmpEvent) (s : BridgeKeeper) (w : W) → length (deposit_calls ev s w) ≤ 1
  length-deposit_calls ev s w = elim (Option-cases (credit_of ev)) [
    | inl e ↦ rw (deposit_calls-none ev s w e) (omega arith)
    | inr (credit, e) ↦ rw (deposit_calls-some ev s w credit e) (omega arith)
  ]

  pub calls_in-le :
      (id : ℕ) (evs : List GmpEvent) (s : BridgeKeeper) (w : W)
      → length (calls_in id evs s w) ≤ count (is_event id) evs
  unfolding calls_in
  calls_in-le id [] s w = omega arith
  calls_in-le id (ev ∷ evs) s w =
      let s' = (process_deposit chain bridge ev s w).0 in
      let w' = (process_deposit chain bridge ev s w).1 in
      let rest = calls_in-le id evs s' w' in
      elim (Bool-cases (is_event id ev)) [
        | inl e ↦ rw e (
            omega (
              arith,
              rest,
              length-append (deposit_calls ev s w) (calls_in id evs s' w'),
              length-deposit_calls ev s w,
            ))
        | inr e ↦ rw e (omega (arith, rest))
      ]

  deposit-keeps :
      (id : ℕ) (ev : GmpEvent) (s : BridgeKeeper) (w : W)
      → has id s.processed ≡ true
      → has id (process_deposit chain bridge ev s w).0.processed ≡ true
  unfolding process_deposit
  deposit-keeps id ev s w h = elim (Option-cases (credit_of ev)) [
    | inl e ↦ rw (e, process_deposit) (ground arith)
    | inr (credit, e) ↦ rw (e, process_deposit) (ground arith)
  ]

  deposit-marks :
      (ev : GmpEvent) (s : BridgeKeeper) (w : W)
      → resolved (deposit_calls ev s w) ≡ true
      → has ev.id (process_deposit chain bridge ev s w).0.processed ≡ true
  unfolding process_deposit
  deposit-marks ev s w h = elim (Option-cases (credit_of ev)) [
    | inl e ↦ rw (e, process_deposit) (ground arith)
    | inr (credit, e) ↦ elim (Bool-cases (chain (invocation credit) w).0) [
      | inl k ↦ rw (e, process_deposit) (rw k (ground arith))
      | inr k ↦
          let failed : resolved (deposit_calls ev s w) ≡ false =
            rw (deposit_calls-some ev s w credit e) (rw k refl) in
          absurd (silent (sym failed ∙ h))
    ]
  ]
    where
      silent : false ≡ true → ⊥
      silent p = cc

  pub all-keeps :
      (id : ℕ) (evs : List GmpEvent) (s : BridgeKeeper) (w : W)
      → has id s.processed ≡ true
      → has id (process_all chain bridge evs s w).0.processed ≡ true
  unfolding process_all
  all-keeps id [] s w h = h
  all-keeps id (ev ∷ evs) s w h =
      all-keeps id evs (process_deposit chain bridge ev s w).0
        (process_deposit chain bridge ev s w).1 (deposit-keeps id ev s w h)

  pub all-marks :
      (id : ℕ) (evs : List GmpEvent) (s : BridgeKeeper) (w : W)
      → resolved (calls_in id evs s w) ≡ true
      → has id (process_all chain bridge evs s w).0.processed ≡ true
  unfolding process_all calls_in
  all-marks id [] s w h = cc
  all-marks id (ev ∷ evs) s w h =
      let s' = (process_deposit chain bridge ev s w).0 in
      let w' = (process_deposit chain bridge ev s w).1 in
      let mine = if is_event id ev then deposit_calls ev s w else [] in
      let split = sym (resolved-append mine (calls_in id evs s' w')) ∙ h in
      elim (Bool-cases (resolved (calls_in id evs s' w'))) [
        | inl later ↦ all-marks id evs s' w' later
        | inr later ↦ elim (Bool-cases (is_event id ev)) [
          | inr e ↦ absurd (silent (sym (rw (e, later) refl) ∙ split))
          | inl e ↦
              let same : ev.id ≡ id = ground arith in
              let now : resolved (deposit_calls ev s w) ≡ true =
                elim (Bool-cases (resolved (deposit_calls ev s w))) [
                  | inl k ↦ k
                  | inr k ↦ absurd (silent (sym (rw (e, later) (rw k refl)) ∙ split))
                ] in
              all-keeps id evs s' w'
                (subst (λ n. has n s'.processed ≡ true) same (deposit-marks ev s w now))
        ]
      ]
    where
      silent : false ≡ true → ⊥
      silent p = cc
