-- ===== src/Keeper/Invoke/Extend.antt =====
-- `SorobanClient.extendTtl` of packages/keeper/src/stellar.ts. Its loop is that of `invokeInner`; unlike
-- there an answer that cannot be parsed is an error.
use Prim.Native.String.{String}
use stellax.Base.{ℕ, suc, ◌≡◌, refl, none, some, List, [], ◌∷◌, inl, inr, ◌⊎◌, Elem, Option-cases}
use stellax.Keeper.Invoke.{
  Outcome, ok, threw, rethrown, Trace, retry, InvokeResult, Poll, status, poll_threw, not_found,
  success, failed, Rpc,
}
use stellax.Keeper.Invoke.Retry.{Decided, retry-Decided}

module _ (simulation_failed send_failed tx_status : String → String) where
  unfoldable pub poll_ttl : String → Poll → List Poll → Outcome InvokeResult
  poll_ttl hash (poll_threw msg) rest = threw msg
  poll_ttl hash (status success) rest = ok (record { hash = hash })
  poll_ttl hash (status failed) rest = threw (tx_status hash)
  poll_ttl hash (status not_found) [] = threw (tx_status hash)
  poll_ttl hash (status not_found) (p ∷ rest) = poll_ttl hash p rest

  unfoldable pub extend_once : Rpc → Outcome InvokeResult
  unfolding poll_ttl
  extend_once r = elim r.simulation_error [
    | some e ↦ threw (simulation_failed e)
    | none ↦ elim r.send_error [
      | some e ↦ threw (send_failed e)
      | none ↦ poll_ttl r.hash r.first r.later
    ]
  ]

  poll_ttl-success :
      (hash : String) (first : Poll) (later : List Poll) (a : InvokeResult)
      → poll_ttl hash first later ≡ ok a
      → Elem (status success) (first ∷ later) × (a.hash ≡ hash)
  unfolding poll_ttl
  poll_ttl-success hash (poll_threw msg) later a h = absurd (cc)
  poll_ttl-success hash (status success) later a h = (inl refl, cc)
  poll_ttl-success hash (status failed) later a h = absurd (cc)
  poll_ttl-success hash (status not_found) [] a h = absurd (cc)
  poll_ttl-success hash (status not_found) (p ∷ later) a h =
      let (e, g) = poll_ttl-success hash p later a h in (inr e, g)

  -- An attempt that succeeds was simulated and sent without an error, the chain answered that the
  -- transaction succeeded, and its hash is the result.
  pub extend_once-success :
      (r : Rpc) (a : InvokeResult)
      → extend_once r ≡ ok a
      → (r.simulation_error ≡ none)
        × (r.send_error ≡ none)
        × Elem (status success) (r.first ∷ r.later)
        × (a.hash ≡ r.hash)
  unfolding extend_once
  extend_once-success r a h = elim (Option-cases r.simulation_error) [
    | inr (e, p) ↦ absurd (cc (rw (p, extend_once) at h))
    | inl p ↦ elim (Option-cases r.send_error) [
      | inr (e, q) ↦ absurd (cc (rw (p, q, extend_once) at h))
      | inl q ↦
          let g = poll_ttl-success r.hash r.first r.later a (rw (p, q, extend_once) at h) in
          (p, q, g.0, g.1)
    ]
  ]

-- `extendTtl`: no keys is an error before anything else
module _ {K A W : Type 0} (extend_once : List K → W → Outcome A × W) where
  unfoldable pub extend_ttl : List K → ℕ → W → Trace A W
  unfolding retry
  extend_ttl [] max_retries w = record {
    ending = rethrown "extendTtl: keys must be non-empty";
    attempts = 0;
    delays = [];
    world = w;
  }
  extend_ttl (k ∷ keys) max_retries w = retry (extend_once (k ∷ keys)) (suc max_retries) 0 none [] w

  -- With a key the extension is decided as an invocation is: `k + 1` attempts, of which all before the last
  -- failed with an error that may pass, and the last one decides unless the budget is spent. With none
  -- it throws and nothing is attempted.
  pub extend_ttl-Decided :
      (keys : List K) (max_retries : ℕ) (w : W)
      → ((keys ≡ [])
          × (extend_ttl keys max_retries w ≡ record {
            ending = rethrown "extendTtl: keys must be non-empty";
            attempts = 0;
            delays = [];
            world = w;
          }))
        ⊎ Decided (extend_once keys) max_retries 0 [] w (extend_ttl keys max_retries w)
  unfolding extend_ttl
  extend_ttl-Decided [] max_retries w = inl (refl, refl)
  extend_ttl-Decided (k ∷ keys) max_retries w =
      inr (retry-Decided (extend_once (k ∷ keys)) max_retries 0 none [] w)
