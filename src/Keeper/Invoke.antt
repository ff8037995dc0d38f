-- ===== src/Keeper/Invoke.antt =====
-- Submitting a transaction (packages/keeper/src/stellar.ts, `SorobanClient._invokeInner`).
-- The RPC server is a parameter: what each attempt meets is a value of the types below.
pub mod Retry
pub mod Submit
pub mod Extend
mod Tests
use Prim.Native.String.{String}
use text.Mathlib.Text.{starts_with, find?}
use stellax.Base.{
  ℕ, zero, suc, ◌+◌, ◌*◌, ◌^◌, ◌≡◌, Bool, true, false, ◌&&◌, Option, none, some, List, [], ◌∷◌,
  ◌++◌, if◌then◌else◌,
}

pub data Outcome (A : Type 0) : Type 0 where
  ok : A → Outcome A
  threw : String → Outcome A

-- `s.includes(t)`
abbrev pub includes : String → String → Bool
includes s t = elim (find? s t) [ none ↦ false | some i ↦ true ]

-- the errors that are thrown at once
abbrev pub is_deterministic : String → Bool
is_deterministic msg =
    starts_with msg "Simulation failed:" && includes msg "HostError: Error(Contract,"

-- How the retry loop ends: a result, the error that was thrown on at once, or the last of all errors.
pub data Ending (A : Type 0) : Type 0 where
  resolved : A → Ending A
  rethrown : String → Ending A
  exhausted : Option String → Ending A

pub record Trace (A W : Type 0) : Type 0 where
  pub ending : Ending A
  pub attempts : ℕ
  pub delays : List ℕ
  pub world : W

module _ {A W : Type 0} (try_once : W → Outcome A × W) where
  -- `while (attempt <= maxRetries)`, with `left` rounds to go; `delays` are the sleeps so far.
  unfoldable pub retry : (left attempt : ℕ) → Option String → List ℕ → W → Trace A W
  retry zero attempt last_err delays w = record {
    ending = exhausted last_err;
    attempts = attempt;
    delays = delays;
    world = w;
  }
  retry (suc left) attempt last_err delays w =
      let (outcome, w') = try_once w in
      elim outcome [
        | ok a ↦ record { ending = resolved a; attempts = attempt + 1; delays = delays; world = w' }
        | threw msg ↦ elim (is_deterministic msg) [
          | true ↦ record {
            ending = rethrown msg;
            attempts = attempt + 1;
            delays = delays;
            world = w';
          }
          | false ↦ elim left [
            | zero ↦ record {
              ending = exhausted (some msg);
              attempts = attempt + 1;
              delays = delays;
              world = w';
            }
            | suc l ↦ retry left (attempt + 1) (some msg) (delays ++ ((500 * 2 ^ attempt) ∷ [])) w'
          ]
        ]
      ]

  unfoldable pub invoke_inner : ℕ → W → Trace A W
  unfolding retry
  invoke_inner max_retries w = retry (suc max_retries) 0 none [] w

-- One attempt: the simulation, the submission, and the answers of `getTransaction` until the deadline,
-- the first one outside the loop. `none` among them is an answer that cannot be parsed.
pub data TxStatus : Type 0 where
  not_found success failed : TxStatus

pub data Poll : Type 0 where
  status : TxStatus → Poll
  poll_threw : String → Poll

pub record Rpc : Type 0 where
  pub simulation_error : Option String
  pub send_error : Option String
  pub hash : String
  pub first : Poll
  -- the answers of the rounds of the loop that begin before the deadline
  pub later : List Poll

pub record InvokeResult : Type 0 where
  pub hash : String

abbrev pub poll_error : String → String → Outcome InvokeResult
poll_error hash msg =
    if includes msg "Bad union switch" then ok (record { hash = hash }) else threw msg

-- the message of `throw new Error(...)` is a parameter, as the texts need no more than their origin
module _ (simulation_failed send_failed tx_status : String → String) where
  pub poll : String → Poll → List Poll → Outcome InvokeResult
  poll hash (poll_threw msg) rest = poll_error hash msg
  poll hash (status success) rest = ok (record { hash = hash })
  poll hash (status failed) rest = poll_error hash (tx_status hash)
  poll hash (status not_found) [] = poll_error hash (tx_status hash)
  poll hash (status not_found) (p ∷ rest) = poll hash p rest

  pub attempt_once : Rpc → Outcome InvokeResult
  unfolding poll
  attempt_once r = elim r.simulation_error [
    | some e ↦ threw (simulation_failed e)
    | none ↦ elim r.send_error [
      | some e ↦ threw (send_failed e)
      | none ↦ poll r.hash r.first r.later
    ]
  ]
