-- ===== src/Keeper/Health/Tests.antt =====
-- Reports on one worker.
use stellax.Base.{◌≡◌, refl, true, some, none, List, [], ◌∷◌}
use stellax.Base.Int.{pos}
use stellax.Keeper.Worker.{WorkerStatus}
use stellax.Keeper.Health.{
  Reported, low_balance, oracle_never_succeeded, failing, build_report, is_ok,
}

abbrev status : WorkerStatus
status = record {
  running = true;
  last_run_at = some 9;
  last_success_at = none;
  last_error = some "tick timeout";
  run_count = 4;
  error_count = 4;
}

abbrev workers : List Reported
workers = record { name = "oracle-pusher"; status = status } ∷ []

three_issues :
    build_report (pos 100) 60 "oracle-pusher" (some (pos 99)) 10 workers
    ≡ low_balance ∷ oracle_never_succeeded ∷ failing "oracle-pusher" ∷ []
unfolding build_report
three_issues = refl

-- a balance that cannot be read is no issue
unread : is_ok (pos 100) 60 "oracle-pusher" none 10 [] ≡ true
unfolding is_ok build_report
unread = refl
