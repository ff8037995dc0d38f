-- ===== src/Keeper/Yield/Idempotent.antt =====
-- What one credit leaves to be credited again.
use stellax.Base.{ℕ, ◌+◌, ◌-◌, ◌*◌, ◌/◌, ◌≤◌, ◌<◌, ◌≡◌, refl, List, [], ◌∷◌, arith, All}
use stellax.Keeper.Yield.{
  RwaHolder, expected, deltas_of, sum_deltas, bps_denominator, seconds_per_year,
}

-- What the loop would credit to one holder.
abbrev pub owed : ℕ → ℕ → RwaHolder → ℕ
owed now apy_bps h = expected now apy_bps h - h.cumulative_yield

abbrev pub sum_owed : ℕ → ℕ → List RwaHolder → ℕ
sum_owed now apy_bps [] = 0
sum_owed now apy_bps (h ∷ hs) = owed now apy_bps h + sum_owed now apy_bps hs

-- The deltas add up to what is owed to all holders, and none is zero.
pub sum-deltas_of :
    (now apy_bps : ℕ) (holders : List RwaHolder)
    → (sum_deltas (deltas_of now apy_bps holders) ≡ sum_owed now apy_bps holders)
      × All (λ d. 0 < d.delta) (deltas_of now apy_bps holders)
unfolding deltas_of
sum-deltas_of now apy [] = (refl, tt)
sum-deltas_of now apy (h ∷ hs) = ground (arith, sum-deltas_of now apy hs)

-- The contract's view after the whole owed amount is credited: the yield grows by it, and so does the
-- balance, since `credit_yield` mints.
abbrev pub credited : ℕ → ℕ → RwaHolder → RwaHolder
credited now apy_bps h = record h {
  balance_native = h.balance_native + owed now apy_bps h;
  cumulative_yield = h.cumulative_yield + owed now apy_bps h;
}

-- the same, if the balance did not grow
abbrev pub accounted : ℕ → ℕ → RwaHolder → RwaHolder
accounted now apy_bps h = record h { cumulative_yield = h.cumulative_yield + owed now apy_bps h }

-- With the balance left as it was, a second pass at the same time owes nothing.
pub owed-accounted :
    (now apy_bps : ℕ) (h : RwaHolder) → owed now apy_bps (accounted now apy_bps h) ≡ 0
unfolding expected
owed-accounted now apy h = omega arith

div_mono_add : (a b d : ℕ) → 0 < d → d ≤ b → a / d < (a + b) / d
div_mono_add a b d h k = grind arith

-- The balance does grow, and the rate is applied to the grown balance over the whole time since the
-- start: if the credited amount itself would have earned at least one unit, a second pass at the same
-- time pays again. (The yield credited before does not exceed what was expected.)
pub owed-credited :
    (now apy_bps : ℕ) (h : RwaHolder)
    → h.cumulative_yield ≤ expected now apy_bps h
    → bps_denominator * seconds_per_year ≤ owed now apy_bps h * apy_bps * (now - h.since_ts)
    → 0 < owed now apy_bps (credited now apy_bps h)
unfolding expected
owed-credited now apy h behind earns =
    let t = now - h.since_ts in
    let grown =
      div_mono_add (h.balance_native * apy * t) (owed now apy h * apy * t)
        (bps_denominator * seconds_per_year) (omega arith) earns in
    omega (arith, grown)
