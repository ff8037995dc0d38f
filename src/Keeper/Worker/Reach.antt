-- ===== src/Keeper/Worker/Reach.antt =====
-- The states that a worker reaches, and what holds in them.
use Prim.Native.String.{String}
use stellax.Base.{
  ℕ, ◌+◌, ◌≤◌, ◌<◌, ◌≡◌, true, false, none, arith, if◌then◌else◌, inl, inr, ◌⊎◌, Bool-cases,
}
use stellax.Keeper.Worker.{
  Worker, new, start, run, started, tick_resolved, tick_threw, tick_timed_out, abandoned_ended,
  stop, failed,
}

-- What the event loop may do next. A timer fires only while an interval is set, and the outcome of a
-- race comes only while one is awaited.
pub data Step : Worker → Worker → Type 0 where
  call_start : (s : Worker) (interval_ms : ℕ) → Step s (start interval_ms s).0
  on_start_done : (s : Worker) (now : ℕ) → Step s (started now s)
  timer_fires : (s : Worker) (now : ℕ) → 0 < s.timers → Step s (run now s)
  resolves : (s : Worker) (now : ℕ) → s.in_flight ≡ true → Step s (tick_resolved now s)
  throws : (s : Worker) (message : String) → s.in_flight ≡ true → Step s (tick_threw message s)
  times_out :
      (s : Worker) (message : String) → s.in_flight ≡ true → Step s (tick_timed_out message s)
  late_end : (s : Worker) → 0 < s.abandoned → Step s (abandoned_ended s)
  call_stop : (s : Worker) → Step s (stop s)

pub data Reach : Worker → Type 0 where
  begin : Reach new
  next : {s t : Worker} → Reach s → Step s t → Reach t

pub record IsValid (s : Worker) : Type 0 where
  -- the two copies of the flag agree
  pub flags : s.status.running ≡ s.running
  -- every run has ended in success or error, or is the one in flight
  pub accounted :
      s.status.run_count ≡ s.succeeded + s.status.error_count + (if s.in_flight then 1 else 0)
  -- an abandoned tick was counted as an error
  pub abandoned_le : s.abandoned ≤ s.status.error_count
  -- the ticks that execute: the one that the flag stands for, and the abandoned ones
  pub executing_is : s.executing ≡ (if s.in_flight then 1 else 0) + s.abandoned
  pub never_succeeded : s.status.last_success_at ≡ none → s.succeeded ≡ 0
  pub never_run : s.status.last_run_at ≡ none → s.status.run_count ≡ 0

new-IsValid : IsValid new
unfolding new
new-IsValid = ground arith

Step-IsValid : {s t : Worker} → Step s t → IsValid s → IsValid t
unfolding start run started tick_resolved tick_threw tick_timed_out failed abandoned_ended stop
Step-IsValid (call_start s i) v = ground arith
Step-IsValid (on_start_done s now) v = ground arith
Step-IsValid (timer_fires s now h) v = ground arith
Step-IsValid (resolves s now h) v = ground arith
Step-IsValid (throws s m h) v = ground arith
Step-IsValid (times_out s m h) v = ground arith
Step-IsValid (late_end s h) v = ground arith
Step-IsValid (call_stop s) v = ground arith

-- In every reachable state, in whatever order starts, stops, timers and outcomes interleave: the flag
-- shown by the status is the flag; the runs counted are the successes, the errors and the one in
-- flight; and the counters agree with the timestamps that are still empty.
pub Reach-IsValid : {s : Worker} → Reach s → IsValid s
Reach-IsValid begin = new-IsValid
Reach-IsValid (next r st) = Step-IsValid st (Reach-IsValid r)

-- Without a timeout no two ticks overlap: in a reachable state whose abandoned ticks have all ended at
-- most one call of `tick` executes, a timer that fires then leaves at most one, and if one executes the
-- timer changes nothing.
pub Reach-one_at_a_time :
    {s : Worker} (now : ℕ)
    → Reach s
    → s.abandoned ≡ 0
    → (s.executing ≤ 1) × ((run now s).executing ≤ 1) × ((s.executing ≡ 0) ⊎ (run now s ≡ s))
unfolding run
Reach-one_at_a_time {s} now r e =
    let counted = (Reach-IsValid r).executing_is in
    elim (Bool-cases s.in_flight) [
      | inl f ↦ (ground (arith, counted), ground (arith, counted), inr (ground arith))
      | inr f ↦ (ground (arith, counted), ground (arith, counted), inl (ground (arith, counted)))
    ]

-- After a timeout ticks do overlap: from any running state with a tick in flight, the timeout and the
-- next firing of the timer leave one more tick executing than before.
pub times_out-overlap :
    (s : Worker) (message : String) (now : ℕ)
    → s.running ≡ true
    → s.in_flight ≡ true
    → (run now (tick_timed_out message s)).executing ≡ s.executing + 1
unfolding run tick_timed_out failed
times_out-overlap s message now r f = ground arith

-- A stop that comes while `onStart` is awaited does not stop the worker's interval: when `onStart`
-- resolves an interval is set, the worker is not running, and a second `stop` clears nothing.
pub stop-before_started :
    (s : Worker) (interval_ms now : ℕ)
    → s.running ≡ false
    → let t = started now (stop (start interval_ms s).0) in
      (t.running ≡ false) × (0 < t.timers) × (stop t ≡ t)
unfolding start stop started run
stop-before_started s i now r = ground arith
