-- ===== src/Keeper/Pusher/Watchdog.antt =====
-- When the pusher's watchdog barks.
use stellax.Base.{
  ℕ, ◌≡◌, refl, true, false, Option, List, [], ◌∷◌, All, if◌then◌else◌, ◌⊎◌, inl, inr,
}
use stellax.Keeper.Pusher.{
  PushAnswer, pushed, refused, Round, answered, tick, next_success, run_ticks,
}

-- no package of the round reaches the oracle
abbrev pub IsUnpushed : Round → Type 0
IsUnpushed r = (r.fetched ≡ false) ⊎ ((r.answer ≡ pushed) → ⊥)

unpushed_quiet :
    (staleness : ℕ) (last : Option ℕ) (r : Round) (a : PushAnswer)
    → ((a ≡ pushed) → ⊥)
    → (answered staleness last r a).alerted ≡ false
unfolding answered
unpushed_quiet staleness last r pushed h = absurd (h refl)
unpushed_quiet staleness last r (refused msg) h = refl

tick-unpushed :
    (staleness : ℕ) (last : Option ℕ) (r : Round)
    → IsUnpushed r
    → (tick staleness last r).alerted ≡ false
unfolding tick
tick-unpushed staleness last r (inl e) = rw e refl
tick-unpushed staleness last r (inr h) =
    elim r.fetched
      as (λ b.
        (if b
          then answered staleness last r r.answer
          else record { resolved = false; alerted = false }).alerted
        ≡ false) [ true ↦ unpushed_quiet staleness last r r.answer h | false ↦ refl ]

-- As long as no package reaches the oracle, no tick sends an alert, however many there are, whatever the
-- clock reads and however short the staleness threshold is.
pub run_ticks-silent :
    (staleness : ℕ) (last : Option ℕ) (rounds : List Round)
    → All IsUnpushed rounds
    → All (λ alert. alert ≡ false) (run_ticks staleness last rounds)
unfolding run_ticks
run_ticks-silent staleness last [] h = tt
run_ticks-silent staleness last (r ∷ rs) h = (
  tick-unpushed staleness last r h.0,
  run_ticks-silent staleness (next_success staleness last r) rs h.1,
)
