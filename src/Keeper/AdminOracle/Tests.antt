-- ===== src/Keeper/AdminOracle/Tests.antt =====
-- Two ticks of the pusher for two assets, the second one refused by the chain.
use Prim.Native.String.{String}
use text.Mathlib.TextEquality.{eq_iff}
use stellax.Base.{ℕ, ◌+◌, ◌≡◌, refl, true, Option, some, List, [], ◌∷◌, arith}
use stellax.Base.Int.{ℤ, pos}
use stellax.Keeper.Chain.{Chain, recording}
use stellax.Keeper.AdminOracle.{
  Readings, Input, Moment, planned, settled, on_start, run_ticks, run_moments, Stamps,
}
use stellax.Keeper.AdminOracle.Ordered.{Ordered}
use stellax.Keeper.AdminOracle.Overlap.{run_moments-Ordered}
use stellax.Keeper.AdminOracle.Rising.{Rising, accepted, Distinct, run_ticks-Rising}

abbrev readings : ℕ → String → Readings
readings t a = record { fallback = t; tested = t; used = t }

abbrev input : ℕ → Input ℕ
input t = record { clock = readings t; prices = λ a. some 5 }

abbrev counting : Chain ℕ
counting i n = (true, n + 1)

abbrev to_int : ℕ → Option ℤ
to_int n = some (pos n)

abbrev start : Stamps
start = on_start 100 (λ a. some 200) ("BTC" ∷ "ETH" ∷ []) []

two-ticks :
    (run_ticks
      (λ p. true)
      to_int
      counting
      "O"
      ("BTC" ∷ [])
      (input 150 ∷ input 900 ∷ [])
      (("BTC", 200) ∷ [])
      0).0
    ≡ ("BTC", 900) ∷ []
unfolding run_ticks
two-ticks = refl

btc_eth : Distinct ("BTC" ∷ "ETH" ∷ [])
btc_eth = ((λ e. ground (arith, eq_iff "BTC" "ETH"), tt), (tt, tt))

run_ticks-Rising_example : Rising (
    accepted
      (run_ticks
        (λ p. true)
        to_int
        (recording counting)
        "O"
        ("BTC" ∷ "ETH" ∷ [])
        (input 150 ∷ input 900 ∷ [])
        start
        (0, [])).1.1)
run_ticks-Rising_example =
    run_ticks-Rising (λ p. true) to_int counting "O" ("BTC" ∷ "ETH" ∷ [])
      (input 150 ∷ input 900 ∷ []) start 0 btc_eth (λ a. omega arith, (λ a. omega arith, tt))

-- the second tick plans while the first tick's push waits
abbrev overlapping : List (Moment ℕ)
overlapping = planned (input 150) ∷ planned (input 900) ∷ settled ∷ settled ∷ []

run_moments-Ordered_example : Ordered (
    accepted
      (run_moments
        (λ p. true)
        to_int
        (recording counting)
        "O"
        ("BTC" ∷ "ETH" ∷ [])
        overlapping
        (record { last = start; queue = [] })
        (0, [])).1.1)
run_moments-Ordered_example =
    run_moments-Ordered (λ p. true) to_int counting "O" ("BTC" ∷ "ETH" ∷ []) overlapping 100 start 0
      btc_eth
      (
        150,
        (λ a. (omega arith, omega arith, omega arith, omega arith)),
        (900, (λ a. (omega arith, omega arith, omega arith, omega arith)), tt),
      )
