-- ===== src/Keeper/Chain.antt =====
-- The chain as the workers see it (the `StellarClient` interface of packages/keeper/src/stellar.ts),
-- and the loop that most workers share: try an item, catch the error, count, go on.
-- The chain is a parameter: any function from a call and the state of the world to an outcome.
use Prim.Native.String.{String}
use stellax.Base.{ℕ, ◌+◌, ◌≡◌, refl, Bool, true, false, List, [], ◌∷◌, ◌++◌, arith, length}
use stellax.Base.Int.{ℤ}

-- The contract methods that the workers invoke, with their arguments.
pub data Call : Type 0 where
  settle_matched_orders : ℕ → ℕ → Call
  liquidate : ℕ → Call
  update_funding : ℕ → Call
  settle_funding_for_position : ℕ → Call
  roll_epoch : Call
  set_apy_bps : ℕ → Call
  credit_yield : List String → List ℤ → ℕ → Call
  sweep_fees : ℤ → Call
  bridge_collateral_in : List ℕ → ℕ → Call
  admin_push_price : String → ℤ → ℤ → Call
  write_prices : List ℕ → Call

pub record Invocation : Type 0 where
  pub contract : String
  pub call : Call
  pub max_retries : ℕ

-- `stellar.invoke`: `true` if it resolves, `false` if it throws, and the world after it.
abbrev pub Chain : Type 0 → Type 0
Chain W = Invocation → W → Bool × W

-- Every call that is made, in order, and whether it resolved.
abbrev pub Log : Type 0
Log = List (Invocation × Bool)

-- The chain that keeps this log beside its own state. What the workers do they do with any chain, so
-- with this one too.
abbrev pub recording : {W : Type 0} → Chain W → Chain (W × Log)
recording chain i s = let (done, w) = chain i s.0 in (done, (w, s.1 ++ ((i, done) ∷ [])))

pub record Tally : Type 0 where
  pub ok : ℕ
  pub failed : ℕ

abbrev pub tally : Bool → Tally → Tally
tally true t = record t { ok = t.ok + 1 }
tally false t = record t { failed = t.failed + 1 }

module _ {W : Type 0} (chain : Chain W) where
  -- `for (const x of xs) { try { await invoke(x); ok += 1; } catch { failed += 1; } }`
  unfoldable pub try_each : List Invocation → Tally → W → Tally × W
  try_each [] t w = (t, w)
  try_each (i ∷ is) t w = let (done, w') = chain i w in try_each is (tally done t) w'

  -- The world after the calls are made one after the other, whatever each returns.
  unfoldable pub run_all : List Invocation → W → W
  run_all [] w = w
  run_all (i ∷ is) w = run_all is (chain i w).1

  -- A failure stops nothing: every call is made, once and in order.
  pub try_each-world :
      (is : List Invocation) (t : Tally) (w : W) → (try_each is t w).1 ≡ run_all is w
  unfolding try_each run_all
  try_each-world [] t w = refl
  try_each-world (i ∷ is) t w = try_each-world is (tally (chain i w).0 t) (chain i w).1

  -- Each call is counted once, as settled or as failed.
  pub try_each-total :
      (is : List Invocation) (t : Tally) (w : W)
      → let r = (try_each is t w).0 in r.ok + r.failed ≡ t.ok + t.failed + length is
  unfolding try_each
  try_each-total [] t w = omega arith
  try_each-total (i ∷ is) t w =
      ground (arith, try_each-total is (tally (chain i w).0 t) (chain i w).1)

abbrev pub no_tally : Tally
no_tally = record { ok = 0; failed = 0 }
