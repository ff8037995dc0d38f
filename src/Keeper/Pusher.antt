-- ===== src/Keeper/Pusher.antt =====
-- The pusher of signed price packages (packages/keeper/src/workers/oracle-pusher.ts), with the field of
-- its status that it reads (`lastSuccessAt` of packages/keeper/src/worker.ts). Times are in milliseconds.
pub mod Watchdog
mod Tests
use Prim.Native.Char.{code}
use Prim.Native.String.{String}
use stellax.Base.{
  ℕ, ◌-◌, Bool, true, false, ◌&&◌, ◌||◌, Option, none, some, List, [], ◌∷◌, ◌==◌, ltb,
  if◌then◌else◌,
}
use stellax.Indexer.Rows.{Text}
use stellax.Indexer.Decode.Values.{codes}

abbrev pub starts_with : Text → Text → Bool
starts_with [] s = true
starts_with (c ∷ p) [] = false
starts_with (c ∷ p) (d ∷ s) = (c == d) && starts_with p s

-- `s.includes(p)`
abbrev pub includes : Text → Text → Bool
includes p [] = starts_with p []
includes p (c ∷ s) = starts_with p (c ∷ s) || includes p s

-- NonMonotonicTimestamp: the oracle has this package already
unfoldable pub is_unchanged : Text → Bool
is_unchanged msg = includes (codes "#11") msg || includes (codes "NonMonotonicTimestamp") msg

-- the outcome of `write_prices`
pub data PushAnswer : Type 0 where
  pushed : PushAnswer
  refused : (msg : Text) → PushAnswer

-- What one tick meets: whether the fetch resolves, the answer to the push, and the clock: at the test for
-- a missing last success, at the watchdog's test, and at the end of the tick.
pub record Round : Type 0 where
  pub fetched : Bool
  pub answer : PushAnswer
  pub asked : ℕ
  pub tested : ℕ
  pub ended : ℕ

pub record Outcome : Type 0 where
  pub resolved : Bool
  pub alerted : Bool

-- `this.status.lastSuccessAt ?? Date.now()`
abbrev pub last_ok : Option ℕ → ℕ → ℕ
last_ok none asked = asked
last_ok (some t) asked = t

-- what follows the answer of `write_prices`
unfoldable pub answered : ℕ → Option ℕ → Round → PushAnswer → Outcome
unfolding is_unchanged
answered staleness last r (refused msg) = record { resolved = is_unchanged msg; alerted = false }
answered staleness last r pushed = record {
  resolved = true;
  alerted = ltb staleness (r.tested - last_ok last r.asked);
}

-- `tick` with at least one feed
unfoldable pub tick : ℕ → Option ℕ → Round → Outcome
unfolding answered
tick staleness last r =
    if r.fetched
    then answered staleness last r r.answer
    else record { resolved = false; alerted = false }

-- the status of the worker after the tick
unfoldable pub next_success : ℕ → Option ℕ → Round → Option ℕ
unfolding tick
next_success staleness last r = if (tick staleness last r).resolved then some r.ended else last

-- any number of ticks: which of them send an alert
unfoldable pub run_ticks : ℕ → Option ℕ → List Round → List Bool
unfolding tick next_success
run_ticks staleness last [] = []
run_ticks staleness last (r ∷ rs) =
    (tick staleness last r).alerted ∷ run_ticks staleness (next_success staleness last r) rs
