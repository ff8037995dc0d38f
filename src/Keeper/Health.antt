-- ===== src/Keeper/Health.antt =====
-- The health report of the keeper (`buildReport` of packages/keeper/src/health.ts). The balance is an
-- input, `none` where it cannot be read; the texts of the issues are left out.
pub mod Blind
mod Tests
use Prim.Native.String.{String}
use text.Mathlib.Text.{◌==◌ as str_eq}
use stellax.Base.{
  ℕ, ◌-◌, Bool, true, false, ◌&&◌, Option, none, some, List, [], ◌∷◌, ◌++◌, ltb, leb, ◌==◌, length,
  if◌then◌else◌, find,
}
use stellax.Base.Int.{ℤ, ltb_ℤ}
use stellax.Keeper.Worker.{WorkerStatus}

-- `getStatus()`: the status with the worker's name
pub record Reported : Type 0 where
  pub name : String
  pub status : WorkerStatus

pub data Issue : Type 0 where
  low_balance : Issue
  oracle_never_succeeded : Issue
  oracle_stale : Issue
  failing : String → Issue

abbrev pub balance_issues : ℤ → Option ℤ → List Issue
balance_issues minimum none = []
balance_issues minimum (some balance) = if ltb_ℤ balance minimum then low_balance ∷ [] else []

abbrev pub staleness_issues : (staleness now runs : ℕ) → Option ℕ → List Issue
staleness_issues staleness now runs none = if ltb 0 runs then oracle_never_succeeded ∷ [] else []
staleness_issues staleness now runs (some last) =
    if ltb staleness (now - last) then oracle_stale ∷ [] else []

abbrev pub oracle_issues : (staleness now : ℕ) → Option Reported → List Issue
oracle_issues staleness now none = []
oracle_issues staleness now (some w) =
    staleness_issues staleness now w.status.run_count w.status.last_success_at

abbrev pub is_some {ℓ} : {A : Type ℓ} → Option A → Bool
is_some none = false
is_some (some a) = true

abbrev pub is_none {ℓ} : {A : Type ℓ} → Option A → Bool
is_none none = true
is_none (some a) = false

-- a long error streak
abbrev pub is_failing : WorkerStatus → Bool
is_failing w =
    w.running
    && ltb 0 w.error_count
    && is_some w.last_error
    && is_none w.last_success_at
    && leb 3 w.run_count

abbrev pub failing_issues : List Reported → List Issue
failing_issues [] = []
failing_issues (w ∷ ws) =
    let rest = failing_issues ws in if is_failing w.status then failing w.name ∷ rest else rest

module _ (minimum : ℤ) (staleness : ℕ) (oracle_name : String) where
  unfoldable pub build_report : Option ℤ → ℕ → List Reported → List Issue
  build_report balance now workers =
      balance_issues minimum balance
      ++ oracle_issues staleness now (find (λ (w : Reported). str_eq w.name oracle_name) workers)
      ++ failing_issues workers

  unfoldable pub is_ok : Option ℤ → ℕ → List Reported → Bool
  unfolding build_report
  is_ok balance now workers = length (build_report balance now workers) == 0
