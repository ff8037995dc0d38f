-- ===== src/Keeper/Yield/Tests.antt =====
-- The yield drip for three holders over a year.
use stellax.Base.{ℕ, ◌<◌, ◌≡◌, refl, true, some, List, [], ◌∷◌, map, arith}
use stellax.Keeper.Chain.{Chain, Invocation, recording}
use stellax.Keeper.Yield.{RwaHolder, expected, deltas_of, epoch_of, process_feed}
use stellax.Keeper.Yield.Idempotent.{owed, sum_owed, credited, owed-credited}
use stellax.Keeper.Yield.Batches.{credits, credit_for, process_feed-sends_all}

abbrev holder : ℕ → ℕ → RwaHolder
holder balance yielded = record {
  address = "G";
  balance_native = balance;
  cumulative_yield = yielded;
  since_ts = 0;
}

abbrev year : ℕ
year = 31_536_000

abbrev holders : List RwaHolder
holders = holder 1000000 0 ∷ holder 2000000 100000 ∷ holder 3000000 400000 ∷ []

deltas_of-year : deltas_of year 500 holders ≡ record { addr = "G"; delta = 50000 } ∷ []
unfolding deltas_of
deltas_of-year = refl

abbrev log : Chain (List Invocation)
log i w = (true, i ∷ w)

owed-credited_example : 0 < owed year 500 (credited year 500 (holder 1000000 0))
unfolding expected
owed-credited_example = owed-credited year 500 (holder 1000000 0) (omega arith) (omega arith)

process_feed-sends_all_example :
    let r = process_feed (recording log) 2 3 (some "C") (some 500) holders year ([], []) in
    (r.0.completed ≡ true)
    × (credits r.1.1 ≡ map (credit_for "C" (epoch_of year)) (deltas_of year 500 holders))
    × (r.0.total_credited ≡ sum_owed year 500 holders)
process_feed-sends_all_example =
    process_feed-sends_all log 2 3 "C" 500 holders year [] (omega arith) (omega arith) (λ i v. refl)
