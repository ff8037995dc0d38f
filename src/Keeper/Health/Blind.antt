-- ===== src/Keeper/Health/Blind.antt =====
-- What the health report does not see.
use Prim.Native.String.{String}
use text.Mathlib.Text.{◌==◌ as str_eq}
use stellax.Base.{ℕ, ◌≡◌, refl, ap, ◌∙◌, false, some, List, [], ◌∷◌, arith}
use stellax.Base.Int.{ℤ, ◌≤ℤ◌, ltb_ℤ}
use stellax.Keeper.Worker.{Worker, run, tick_threw}
use stellax.Keeper.Health.{is_none, is_failing, build_report}

-- a worker whose ticks all throw, at the given times with the given messages
unfoldable pub run_failing : List (ℕ × String) → Worker → Worker
run_failing [] s = s
run_failing ((now, message) ∷ ticks) s = run_failing ticks (tick_threw message (run now s))

run-keeps_success :
    (now : ℕ) (s : Worker) → (run now s).status.last_success_at ≡ s.status.last_success_at
unfolding run
run-keeps_success now s = ground arith

run_failing-keeps_success :
    (ticks : List (ℕ × String)) (s : Worker)
    → (run_failing ticks s).status.last_success_at ≡ s.status.last_success_at
unfolding run_failing tick_threw
run_failing-keeps_success [] s = refl
run_failing-keeps_success ((now, message) ∷ ticks) s =
    run_failing-keeps_success ticks (tick_threw message (run now s)) ∙ run-keeps_success now s

never_failing :
    (s : Worker) (t : ℕ) → s.status.last_success_at ≡ some t → is_failing s.status ≡ false
never_failing s t h = ground (arith, ap is_none h)

-- A worker that has succeeded once is never reported: however many of its later ticks throw, a report on
-- it alone, with a sufficient balance, names no issue unless it is the oracle's worker.
pub build_report-blind :
    (minimum balance : ℤ) (staleness now t : ℕ) (oracle_name name : String)
    (ticks : List (ℕ × String)) (s : Worker)
    → minimum ≤ℤ balance
    → s.status.last_success_at ≡ some t
    → str_eq name oracle_name ≡ false
    → build_report minimum staleness oracle_name
        (some balance)
        now
        (record { name = name; status = (run_failing ticks s).status } ∷ [])
      ≡ []
unfolding build_report
build_report-blind minimum balance staleness now t oracle_name name ticks s b h n =
    let enough : ltb_ℤ balance minimum ≡ false = ground (arith, b) in
    let quiet = never_failing (run_failing ticks s) t (run_failing-keeps_success ticks s ∙ h) in
    rw (enough, n, quiet) refl
