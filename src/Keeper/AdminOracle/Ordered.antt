-- ===== src/Keeper/AdminOracle/Ordered.antt =====
-- The order of the timestamps that a pusher with overlapping ticks sends, and their bounds.
use Prim.Native.String.{String}
use stellax.Base.{
  ℕ, ◌+◌, ◌≤◌, ◌<◌, ◌≡◌, refl, sym, ◌⊎◌, Option, none, some, List, [], ◌∷◌, ◌++◌, map, arith, inl,
  inr, Bool-cases, ltb, All, All-append, All-append_left,
}
use stellax.Base.Int.{pos, ◌≤ℤ◌}
use stellax.Keeper.AdminOracle.{Stamps, get, Readings, pkg_ts, Push, Moment, planned, settled}
use stellax.Keeper.AdminOracle.Rising.{Stamp, stamp, Apart, After}

-- No later push of an asset has an earlier timestamp.
abbrev pub Ordered : List Stamp → Type 0
Ordered [] = Unit
Ordered (p ∷ ps) = All (λ q. q.0 ≡ p.0 → p.1 ≤ℤ q.1) ps × Ordered ps

-- The clock's readings of a tick are after those of the ticks before it.
abbrev pub Timed : {Price : Type 0} → ℕ → List (Moment Price) → Type 0
Timed t [] = Unit
Timed t (settled ∷ ms) = Timed t ms
Timed t (planned i ∷ ms) =
    (t' : ℕ) × ((a : String)
      → (t < (i.clock a).tested)
        × ((i.clock a).tested ≤ (i.clock a).used)
        × ((i.clock a).used ≤ t')
        × ((i.clock a).fallback ≤ t'))
    × Timed t' ms

pub Ordered-append :
    (xs ys : List Stamp)
    → Ordered xs
    → Ordered ys
    → All (λ p. All (λ q. q.0 ≡ p.0 → p.1 ≤ℤ q.1) ys) xs
    → Ordered (xs ++ ys)
Ordered-append [] ys o o' h = o'
Ordered-append (x ∷ xs) ys o o' h =
    (All-append (λ q. q.0 ≡ x.0 → x.1 ≤ℤ q.1) xs ys o.0 h.0, Ordered-append xs ys o.1 o' h.1)

pub Ordered-left : (xs ys : List Stamp) → Ordered (xs ++ ys) → Ordered xs
Ordered-left [] ys o = tt
Ordered-left (x ∷ xs) ys o =
    (All-append_left (λ q. q.0 ≡ x.0 → x.1 ≤ℤ q.1) xs ys o.0, Ordered-left xs ys o.1)

pub Ordered-right : (xs ys : List Stamp) → Ordered (xs ++ ys) → Ordered ys
Ordered-right [] ys o = o
Ordered-right (x ∷ xs) ys o = Ordered-right xs ys o.1

pub All-drop {ℓ} :
    (P : Stamp → Type ℓ) (xs ys : List Stamp) (y : Stamp)
    → All P (xs ++ (y ∷ ys))
    → All P (xs ++ ys)
All-drop P [] ys y h = h.1
All-drop P (x ∷ xs) ys y h = (h.0, All-drop P xs ys y h.1)

pub Ordered-drop : (xs ys : List Stamp) (y : Stamp) → Ordered (xs ++ (y ∷ ys)) → Ordered (xs ++ ys)
Ordered-drop [] ys y o = o.1
Ordered-drop (x ∷ xs) ys y o =
    (All-drop (λ q. q.0 ≡ x.0 → x.1 ≤ℤ q.1) xs ys y o.0, Ordered-drop xs ys y o.1)

-- a timestamp is at most one after the clock or after the stamp kept for its asset
abbrev pub Within : ℕ → Stamps → Stamp → Type 0
Within t last q = (q.1 ≤ℤ pos (t + 1)) ⊎ ((v : ℕ) × (get q.0 last ≡ some v) × (q.1 ≤ℤ pos (v + 1)))

pub pkg_ts-between :
    (r : Readings) (last : Option ℕ) (t t' : ℕ)
    → t < r.tested
    → r.tested ≤ r.used
    → r.used ≤ t'
    → r.fallback ≤ t'
    → (t < pkg_ts r last)
      × ((pkg_ts r last ≤ t' + 1) ⊎ ((v : ℕ) × (last ≡ some v) × (pkg_ts r last ≤ v + 1)))
unfolding pkg_ts
pkg_ts-between r none t t' a b c d = (ground arith, inl (ground arith))
pkg_ts-between r (some v) t t' a b c d = (
  ground arith,
  elim (Bool-cases (ltb r.tested (v + 1))) [
    | inl e ↦ inr (v, refl, rw e (omega arith))
    | inr e ↦ inl (rw e (omega (arith, c)))
  ],
)

pub Ordered-Apart : (ps : List Push) → Apart ps → Ordered (map stamp ps)
Ordered-Apart [] h = tt
Ordered-Apart (p ∷ ps) h = (others ps h.0, Ordered-Apart ps h.1)
  where
    others :
        (qs : List Push)
        → All (λ q. p.asset ≡ q.asset → ⊥) qs
        → All (λ q. q.0 ≡ p.asset → pos p.ts ≤ℤ q.1) (map stamp qs)
    others [] k = tt
    others (q ∷ qs) k = (λ e. absurd (k.0 (sym e)), others qs k.1)

-- a planned push is not before one that is within the bounds
pub after-bounded :
    (t : ℕ) (last : Stamps) (q : Stamp) (ps : List Push)
    → Within t last q
    → After last ps
    → All (λ p. t < p.ts) ps
    → All (λ r. r.0 ≡ q.0 → q.1 ≤ℤ r.1) (map stamp ps)
after-bounded t last q [] w a h = tt
after-bounded t last q (p ∷ ps) (inl w) a h =
    (λ e. ground (arith, w, h.0), after-bounded t last q ps (inl w) a.1 h.1)
after-bounded t last q (p ∷ ps) (inr (v, g, w)) a h =
    (λ e. ground (arith, w, a.0 v (rw e g)), after-bounded t last q ps (inr (v, g, w)) a.1 h.1)
