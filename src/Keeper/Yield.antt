-- ===== src/Keeper/Yield.antt =====
-- The yield drip (packages/keeper/src/workers/yield-simulator.ts).
-- Native balances are the source's bigints, non-negative as the indexer's source filters them;
-- times are whole seconds and a rate is a whole number of basis points.
pub mod Idempotent
pub mod Batches
mod Tests
use Prim.Native.String.{String}
use stellax.Base.{
  ℕ, zero, suc, ◌+◌, ◌-◌, ◌*◌, ◌/◌, ◌≡◌, Bool, true, false, Option, none, some, List, [], ◌∷◌, ◌++◌,
  map, ltb, leb, ◌==◌, if◌then◌else◌, length, take, drop,
}
use stellax.Base.Int.{ℤ, pos}
use stellax.Keeper.Chain.{Chain, Invocation, Call, set_apy_bps, credit_yield}

abbrev pub seconds_per_year : ℕ
seconds_per_year = 365 * 24 * 60 * 60

abbrev pub bps_denominator : ℕ
bps_denominator = 10_000

pub record RwaHolder : Type 0 where
  pub address : String
  pub balance_native : ℕ
  pub cumulative_yield : ℕ
  pub since_ts : ℕ

pub record Delta : Type 0 where
  pub addr : String
  pub delta : ℕ

-- balance * apyBps * elapsed / (BPS * SECONDS_PER_YEAR); `-` stops at 0 as `Math.max(0, …)` does
unfoldable pub expected : ℕ → ℕ → RwaHolder → ℕ
expected now apy_bps h =
    (h.balance_native * apy_bps * (now - h.since_ts)) / (bps_denominator * seconds_per_year)

-- the loop over the holders: a delta is pushed where `expected - cumulativeYield > 0`
unfoldable pub deltas_of : ℕ → ℕ → List RwaHolder → List Delta
unfolding expected
deltas_of now apy_bps [] = []
deltas_of now apy_bps (h ∷ holders) =
    let owed = expected now apy_bps h in
    let rest = deltas_of now apy_bps holders in
    if ltb h.cumulative_yield owed
    then record { addr = h.address; delta = owed - h.cumulative_yield } ∷ rest
    else rest

pub credit_call : String → ℕ → List Delta → Invocation
credit_call contract epoch_id slice = record {
  contract = contract;
  call = credit_yield (map (λ d. d.addr) slice) (map (λ d. pos d.delta) slice) epoch_id;
  max_retries = 3;
}

abbrev pub sum_deltas : List Delta → ℕ
sum_deltas [] = 0
sum_deltas (d ∷ ds) = d.delta + sum_deltas ds

-- What the batch loop reports: whether it ended without a throw, and its counters.
pub record Drip : Type 0 where
  pub completed : Bool
  pub batches : ℕ
  pub total_credited : ℕ

module _ {W : Type 0} (chain : Chain W) (contract : String)
    (epoch_id batch_size max_batches : ℕ) where
  -- The `for` loop from index `i` on: the list is `deltas.slice(i)`. A throw of `credit_yield` leaves
  -- the tick. The fuel is the number of deltas left: with a positive batch size each round takes one.
  pub drip : ℕ → List Delta → Drip → W → Drip × W
  drip fuel [] s w = (s, w)
  drip zero (d ∷ ds) s w = (record s { completed = false }, w)
  drip (suc fuel) (d ∷ ds) s w =
      let slice = take batch_size (d ∷ ds) in
      let (done, w') = chain (credit_call contract epoch_id slice) w in
      let next : Drip = record {
        completed = true;
        batches = s.batches + 1;
        total_credited = s.total_credited + sum_deltas slice;
      } in
      let rest = drip fuel (drop batch_size (d ∷ ds)) next w' in
      if leb max_batches s.batches
      then (s, w)
      else if done
      then rest
      else (record s { completed = false }, w')

abbrev pub no_drip : Drip
no_drip = record { completed = true; batches = 0; total_credited = 0 }

-- `epochId`: the hour bucket
abbrev pub epoch_of : ℕ → ℕ
epoch_of now_sec = now_sec / 3_600

-- `processFeed`. The contract is none where the map has no such feed, the rate is none where its
-- fetch throws; a failing `set_apy_bps` is ignored.
pub process_feed :
    {W : Type 0} → Chain W → ℕ → ℕ → Option String → Option ℕ → List RwaHolder → ℕ → W → Drip × W
unfolding drip deltas_of
process_feed chain batch_size max_batches none apy holders now w = (no_drip, w)
process_feed chain batch_size max_batches (some contract) none holders now w = (no_drip, w)
process_feed chain batch_size max_batches (some contract) (some apy_bps) holders now w =
    let (_, w') =
      chain (record { contract = contract; call = set_apy_bps apy_bps; max_retries = 3 }) w in
    let deltas = deltas_of now apy_bps holders in
    drip chain contract (epoch_of now) batch_size max_batches (length deltas) deltas no_drip w'
