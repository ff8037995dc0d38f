-- ===== src/Keeper/Invoke/Submit.antt =====
-- When one attempt resolves.
use Prim.Native.String.{String}
use stellax.Base.{
  Option-cases, inl, inr, ◌≡◌, ◌↔◌, refl, Bool, true, false, none, List, [], ◌∷◌, ◌++◌, arith, All,
}
use stellax.Keeper.Invoke.{
  ok, includes, InvokeResult, Poll, status, poll_threw, not_found, success, failed, Rpc, poll,
  attempt_once,
}

-- An answer that makes the attempt resolve: success, or one that the client library cannot parse.
abbrev pub settles : Poll → Bool
settles (status success) = true
settles (status failed) = false
settles (status not_found) = false
settles (poll_threw msg) = includes msg "Bad union switch"

-- Some answers that the transaction is not found, then one that settles it.
pub record Settled (answers : List Poll) : Type 0 where
  pub before : List Poll
  pub answer : Poll
  pub rest : List Poll
  pub split : answers ≡ before ++ (answer ∷ rest)
  pub waited : All (λ p. p ≡ status not_found) before
  pub settling : settles answer ≡ true

module _ (simulation_failed send_failed tx_status : String → String)
    (named : (hash : String) → includes (tx_status hash) "Bad union switch" ≡ false) where
  poll-Settled :
      (hash : String) (first : Poll) (later : List Poll) {r : InvokeResult}
      → poll simulation_failed send_failed tx_status hash first later ≡ ok r
      → Settled (first ∷ later) × (r.hash ≡ hash)
  unfolding poll
  poll-Settled hash (poll_threw msg) later h = (
    record {
      before = [];
      answer = poll_threw msg;
      rest = later;
      split = refl;
      waited = tt;
      settling = ground arith;
    },
    ground arith,
  )
  poll-Settled hash (status success) later h = (
    record {
      before = [];
      answer = status success;
      rest = later;
      split = refl;
      waited = tt;
      settling = refl;
    },
    ground arith,
  )
  poll-Settled hash (status failed) later h = absurd (ground (arith, named hash))
  poll-Settled hash (status not_found) [] h = absurd (ground (arith, named hash))
  poll-Settled hash (status not_found) (p ∷ later) h =
      let (s, e) = poll-Settled hash p later h in
      (
        record {
          before = status not_found ∷ s.before;
          answer = s.answer;
          rest = s.rest;
          split = cc (s.split);
          waited = (refl, s.waited);
          settling = s.settling;
        },
        e,
      )

  poll-of_settles :
      (hash : String) (answer : Poll) (rest : List Poll)
      → settles answer ≡ true
      → poll simulation_failed send_failed tx_status hash answer rest ≡ ok (record { hash = hash })
  unfolding poll
  poll-of_settles hash (poll_threw msg) rest h = ground arith
  poll-of_settles hash (status success) rest h = refl
  poll-of_settles hash (status failed) rest h = cc
  poll-of_settles hash (status not_found) rest h = cc

  poll-of_split :
      (hash : String) (before : List Poll) (first : Poll) (later : List Poll) (answer : Poll)
      (rest : List Poll)
      → first ∷ later ≡ before ++ (answer ∷ rest)
      → All (λ p. p ≡ status not_found) before
      → settles answer ≡ true
      → poll simulation_failed send_failed tx_status hash first later ≡ ok (record { hash = hash })
  unfolding poll
  poll-of_split hash [] first later answer rest e w h =
      let same : first ≡ answer = cc in rw same (rw (poll-of_settles hash answer later h))
  poll-of_split hash (b ∷ []) first [] answer rest e w h = cc
  poll-of_split hash (b ∷ c ∷ before) first [] answer rest e w h = cc
  poll-of_split hash (b ∷ before) first (p ∷ later) answer rest e w h =
      let same : first ≡ status not_found = cc (w.0) in
      let tail : p ∷ later ≡ before ++ (answer ∷ rest) = cc in
      rw same (poll-of_split hash before p later answer rest tail w.1 h)

  -- An attempt resolves with the hash of the submitted transaction exactly when neither the simulation
  -- nor the submission fails and, after answers that the transaction is not found, one before the
  -- deadline says success or cannot be parsed. The latter counts as success whatever became of the
  -- transaction. (Hypothesis: the error texts built from a status do not mention the parser's error.)
  pub attempt_once_iff :
      (r : Rpc)
      → (attempt_once simulation_failed send_failed tx_status r ≡ ok (record { hash = r.hash }))
        ↔ ((r.simulation_error ≡ none) × (r.send_error ≡ none) × Settled (r.first ∷ r.later))
  unfolding attempt_once
  attempt_once_iff r = (there, back)
    where
      there :
          attempt_once simulation_failed send_failed tx_status r ≡ ok (record { hash = r.hash })
          → (r.simulation_error ≡ none) × (r.send_error ≡ none) × Settled (r.first ∷ r.later)
      there h = elim (Option-cases r.simulation_error) [
        | inr (e, q) ↦ absurd (ground arith)
        | inl q ↦ elim (Option-cases r.send_error) [
          | inr (e, q') ↦ absurd (ground arith)
          | inl q' ↦ (
            q,
            q',
            (poll-Settled r.hash r.first r.later {r = record { hash = r.hash }} (ground arith)).0,
          )
        ]
      ]

      back :
          (r.simulation_error ≡ none) × (r.send_error ≡ none) × Settled (r.first ∷ r.later)
          → attempt_once simulation_failed send_failed tx_status r ≡ ok (record { hash = r.hash })
      back (q, q', s) =
          let sent =
            poll-of_split r.hash s.before r.first r.later s.answer s.rest s.split s.waited
              s.settling in
          ground arith
