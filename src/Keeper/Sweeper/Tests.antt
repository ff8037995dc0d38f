-- ===== src/Keeper/Sweeper/Tests.antt =====
-- The sweeper at a treasury of 10 002.5 USDC with a baseline of 10 000 USDC.
use stellax.Base.{◌+◌, ◌*◌, ◌≤◌, ◌<◌, ◌≡◌, ◌⊎◌, refl, some, arith}
use stellax.Base.Int.{pos, ◌≤ℤ◌, ◌-ℤ◌}
use stellax.Keeper.Sweeper.{to_sweep, native_to_internal, to_sweep-keeps_baseline}

sweep-runs :
    to_sweep (pos 100_000_000_000) (pos 10_000_000) (some (pos 10_002_500_000_000_000_000_000))
    ≡ some (pos 10_000_000)
unfolding to_sweep ◌-ℤ◌
sweep-runs = refl

to_sweep-keeps_baseline_example :
    ((100_000_000_000 + 25_000_000) * native_to_internal ≤ 10_002_500_000_000_000_000_000)
    × (pos 25_000_000 ≤ℤ pos 30_000_000)
    × (10_002_500_000_000_000_000_000 < (100_000_000_000 + 25_000_000 + 1) * native_to_internal
        ⊎ (pos 25_000_000 ≡ pos 30_000_000))
unfolding to_sweep ◌-ℤ◌
to_sweep-keeps_baseline_example =
    to_sweep-keeps_baseline (pos 100_000_000_000) (pos 30_000_000)
      (pos 10_002_500_000_000_000_000_000) (omega arith) refl
