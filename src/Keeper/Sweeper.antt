-- ===== src/Keeper/Sweeper.antt =====
-- The fee sweeper (packages/keeper/src/workers/slp-fee-sweeper.ts). Amounts are the source's bigints.
mod Tests
use Prim.Native.String.{String}
use stellax.Base.{
  ℕ, ◌+◌, ◌-◌, ◌*◌, ◌/◌, ◌^◌, ◌≤◌, ◌≡◌, refl, Bool, true, false, Option, none, some, arith, ltb,
  min, if◌then◌else◌, inl, inr, ◌⊎◌, ◌↔◌, ◌<◌, Bool-cases,
}
use stellax.Base.Int.{
  ℤ, pos, negsuc, pos_part, neg_part, ◌+ℤ◌, ◌-ℤ◌, ◌≤ℤ◌, ◌<ℤ◌, ltb_ℤ, leb_ℤ, int_laws,
}
use stellax.Keeper.Chain.{Chain, Invocation, sweep_fees}

abbrev pub native_to_internal : ℕ
native_to_internal = 100_000_000_000

-- bigint division by a positive constant rounds towards zero
abbrev pub quot_ℤ : ℤ → ℕ → ℤ
quot_ℤ (pos n) d = pos (n / d)
quot_ℤ (negsuc n) d = if ltb n (d - 1) then pos 0 else negsuc ((n + 1) / d - 1)

-- the balance that `simulate` returns: `none` stands for a value that is no bigint
abbrev pub balance_of : Option ℤ → ℤ
balance_of none = pos 0
balance_of (some raw) = raw

-- The amount that `tick` sweeps; `none` where it returns early.
unfoldable pub to_sweep : (baseline cap : ℤ) → Option ℤ → Option ℤ
to_sweep baseline cap raw =
    let available = quot_ℤ (balance_of raw) native_to_internal in
    let feeable = if ltb_ℤ baseline available then available -ℤ baseline else pos 0 in
    if leb_ℤ feeable (pos 0) then none else some (if ltb_ℤ feeable cap then feeable else cap)

-- `tick`: `true` where it resolves, `false` where `sweep_fees` throws.
pub tick : {W : Type 0} → Chain W → String → (baseline cap : ℤ) → Option ℤ → W → Bool × W
unfolding to_sweep
tick chain slp_vault baseline cap raw w = elim (to_sweep baseline cap raw) [
  | none ↦ (true, w)
  | some amount ↦
      chain (record { contract = slp_vault; call = sweep_fees amount; max_retries = 3 }) w
]

-- A sweep leaves at least the baseline in the treasury: the balance covers the baseline and the swept
-- amount, both converted to internal units. It never exceeds the cap, and it is the smaller of the cap
-- and the whole native units above the baseline.
pub to_sweep-keeps_baseline :
    (baseline cap raw : ℤ) {amount : ℤ}
    → pos 0 ≤ℤ baseline
    → to_sweep baseline cap (some raw) ≡ some amount
    → ((pos_part baseline + pos_part amount) * native_to_internal ≤ pos_part raw)
      × (amount ≤ℤ cap)
      × (pos_part raw < (pos_part baseline + pos_part amount + 1) * native_to_internal
          ⊎ (amount ≡ cap))
unfolding to_sweep ◌-ℤ◌
to_sweep-keeps_baseline (pos b) (pos c) (pos r) h e = ground arith
to_sweep-keeps_baseline (pos b) (negsuc c) (pos r) h e = ground arith
to_sweep-keeps_baseline (pos b) cap (negsuc r) h e = ground arith
to_sweep-keeps_baseline (negsuc b) cap raw h e = absurd (omega arith)

-- Nothing is swept exactly where no whole native unit stands above the baseline.
pub to_sweep-none_iff :
    (baseline cap : ℕ) (raw : ℤ)
    → (to_sweep (pos baseline) (pos cap) (some raw) ≡ none)
      ↔ (pos_part raw < (baseline + 1) * native_to_internal)
unfolding to_sweep ◌-ℤ◌
to_sweep-none_iff baseline cap (pos r) = (λ e. ground arith, λ h. ground arith)
to_sweep-none_iff baseline cap (negsuc r) = (λ e. ground arith, λ h. ground arith)
