-- ===== src/Keeper/Queue/Tests.antt =====
-- Two calls in the queue.
use stellax.Base.{ℕ, ◌≤◌, ◌≡◌, ◌⊎◌, refl, Option, none, some, [], ◌∷◌, Elem, inl, length}
use stellax.Keeper.Queue.{
  TxQueue, new, enter, begin, IsResolved, entered, began, Reach, start, next,
}
use stellax.Keeper.Queue.Order.{down, Reach-serial}

abbrev both : TxQueue
both = enter (begin 0 (enter new))

both-Reach : Reach both
unfolding enter new
both-Reach =
    next (next (next start (entered new)) (began (enter new) 0 none (inl refl) tt))
      (entered (begin 0 (enter new)))

Reach-serial_example :
    (length both.running ≤ 1)
    × ((k : ℕ) × (k ≤ both.next) × (both.begun ≡ down k))
    × ((both.waiting ≡ [])
        ⊎ ((t : ℕ) × Elem t both.running)
        ⊎ ((t : ℕ) × (prev : Option ℕ) × Elem (t, prev) both.waiting × IsResolved prev both))
Reach-serial_example = Reach-serial both-Reach

second_waits : both.waiting ≡ (1, some 0) ∷ []
unfolding enter begin new
second_waits = refl
