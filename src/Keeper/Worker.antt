-- ===== src/Keeper/Worker.antt =====
-- The base class of the workers (packages/keeper/src/worker.ts) as a state machine.
-- Each synchronous stretch of its methods is one step; an `await` ends a step, so that what other
-- callbacks do in between shows as steps in between.
pub mod Reach
mod Tests
use Prim.Native.String.{String}
use stellax.Base.{ℕ, ◌+◌, ◌-◌, ◌≡◌, Bool, true, false, Option, none, some, if◌then◌else◌}

pub record WorkerStatus : Type 0 where
  pub running : Bool
  pub last_run_at : Option ℕ
  pub last_success_at : Option ℕ
  pub last_error : Option String
  pub run_count : ℕ
  pub error_count : ℕ

-- The fields of `BaseWorker`. Besides the code's own fields: `timers` counts the intervals that are
-- set and not cleared, `executing` the calls of `this.tick()` that have been made and have not ended,
-- `abandoned` those among them that lost the race against the timeout, and `succeeded` the ticks that
-- resolved.
pub record Worker : Type 0 where
  pub running : Bool
  pub timer : Bool
  pub in_flight : Bool
  pub interval_ms : ℕ
  pub status : WorkerStatus
  pub timers : ℕ
  pub executing : ℕ
  pub abandoned : ℕ
  pub succeeded : ℕ

pub new : Worker
new = record {
  running = false;
  timer = false;
  in_flight = false;
  interval_ms = 60_000;
  status = record {
    running = false;
    last_run_at = none;
    last_success_at = none;
    last_error = none;
    run_count = 0;
    error_count = 0;
  };
  timers = 0;
  executing = 0;
  abandoned = 0;
  succeeded = 0;
}

-- `start` up to `await this.onStart()`; the result says whether it goes on.
pub start : ℕ → Worker → Worker × Bool
start interval_ms s = if s.running then (s, false) else (
  record s {
    interval_ms = interval_ms;
    running = true;
    status = record s.status { running = true };
  },
  true,
)

-- the closure `run` up to its `await`
unfoldable pub run : ℕ → Worker → Worker
run now s =
    if s.running
    then (if s.in_flight then s else record s {
      in_flight = true;
      status = record s.status { last_run_at = some now; run_count = s.status.run_count + 1 };
      executing = s.executing + 1;
    })
    else s

-- `start` after `onStart` resolved: the first run, and the interval
pub started : ℕ → Worker → Worker
unfolding run
started now s = record (run now s) { timer = true; timers = s.timers + 1 }

-- `run` after the race: the tick resolved
pub tick_resolved : ℕ → Worker → Worker
tick_resolved now s = record s {
  in_flight = false;
  status = record s.status { last_success_at = some now; last_error = none };
  executing = s.executing - 1;
  succeeded = s.succeeded + 1;
}

-- the `catch` block of `run`, and the flag cleared
unfoldable pub failed : String → Worker → Worker
failed message s = record s {
  in_flight = false;
  status = record s.status { error_count = s.status.error_count + 1; last_error = some message };
}

-- `run` after the race: the tick threw
unfoldable pub tick_threw : String → Worker → Worker
unfolding failed
tick_threw message s = record (failed message s) { executing = s.executing - 1 }

-- `run` after the race: the timeout came first, and the tick goes on
pub tick_timed_out : String → Worker → Worker
unfolding failed
tick_timed_out message s = record (failed message s) { abandoned = s.abandoned + 1 }

-- a tick that lost the race ends; nobody awaits it
pub abandoned_ended : Worker → Worker
abandoned_ended s = record s { executing = s.executing - 1; abandoned = s.abandoned - 1 }

-- `stop`; the interval cleared is the one that the field holds
pub stop : Worker → Worker
stop s =
    if s.running
    then record s {
      running = false;
      status = record s.status { running = false };
      timer = false;
      timers = if s.timer then s.timers - 1 else s.timers;
    }
    else s
