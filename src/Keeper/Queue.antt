-- ===== src/Keeper/Queue.antt =====
-- The transaction queue of the Soroban client (`txQueue` of packages/keeper/src/stellar.ts): `invoke` and
-- `extendTtl` put a promise of their own at its end, await the one before, and resolve theirs in a
-- `finally` block. A promise is known by the number of its call.
pub mod Order
mod Tests
use stellax.Base.{
  ℕ, suc, ◌+◌, ◌≡◌, ◌⊎◌, Option, none, some, List, [], ◌∷◌, ◌++◌, Elem, ◌==◌, if◌then◌else◌,
}

-- The client's field is `tail`, where `none` is `Promise.resolved()`. The rest is what the event loop
-- holds: the calls that await a promise, those that are past it, the promises that are resolved; and the
-- calls that got past it, the last one first.
pub record TxQueue : Type 0 where
  pub tail : Option ℕ
  pub next : ℕ
  pub waiting : List (ℕ × Option ℕ)
  pub running : List ℕ
  pub resolved : List ℕ
  pub begun : List ℕ

unfoldable pub new : TxQueue
new = record { tail = none; next = 0; waiting = []; running = []; resolved = []; begun = [] }

-- a call up to `await prev`
unfoldable pub enter : TxQueue → TxQueue
enter s = record s {
  tail = some s.next;
  next = s.next + 1;
  waiting = s.waiting ++ ((s.next, s.tail) ∷ []);
}

abbrev pub without_call : ℕ → List (ℕ × Option ℕ) → List (ℕ × Option ℕ)
without_call t [] = []
without_call t ((u, p) ∷ calls) = if u == t then calls else (u, p) ∷ without_call t calls

-- past `await prev`
unfoldable pub begin : ℕ → TxQueue → TxQueue
begin t s = record s {
  waiting = without_call t s.waiting;
  running = t ∷ s.running;
  begun = t ∷ s.begun;
}

abbrev pub without : ℕ → List ℕ → List ℕ
without t [] = []
without t (u ∷ us) = if u == t then us else u ∷ without t us

-- `releaseQueue()`, whether the transaction was made or threw
unfoldable pub finish : ℕ → TxQueue → TxQueue
finish t s = record s { running = without t s.running; resolved = t ∷ s.resolved }

abbrev pub IsResolved : Option ℕ → TxQueue → Type 0
IsResolved none s = Unit
IsResolved (some p) s = Elem p s.resolved

-- what may happen next
pub data Step : TxQueue → TxQueue → Type 0 where
  entered : (s : TxQueue) → Step s (enter s)
  began :
      (s : TxQueue) (t : ℕ) (prev : Option ℕ)
      → Elem (t, prev) s.waiting
      → IsResolved prev s
      → Step s (begin t s)
  finished : (s : TxQueue) (t : ℕ) → Elem t s.running → Step s (finish t s)

pub data Reach : TxQueue → Type 0 where
  start : Reach new
  next : {s t : TxQueue} → Reach s → Step s t → Reach t
