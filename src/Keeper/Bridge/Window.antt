-- ===== src/Keeper/Bridge/Window.antt =====
-- Which deposits the bridge keeper fetches again.
use Prim.Native.String.{String}
use stellax.Base.{
  ℕ, ◌-◌, ◌/◌, ◌≤◌, ◌<◌, ◌≡◌, refl, subst, not, some, List, [], ◌∷◌, count, count-filter_le, All,
  All-mono, length, length-append, arith, Bool-cases, Option-cases, inl, inr,
}
use stellax.Keeper.Chain.{Chain, Log}
use stellax.Keeper.Bridge.{GmpEvent, BridgeKeeper, has, Api, fetch_pending_deposits, tick}
use stellax.Keeper.Bridge.Calls.{is_event, calls_in, run_calls, calls_in-le}

count-old :
    (time : ℕ → ℕ) (id t : ℕ) (evs : List GmpEvent)
    → All (λ (e : GmpEvent). t ≤ time e.id) evs
    → time id < t
    → count (is_event id) evs ≡ 0
count-old time id t [] h old = refl
count-old time id t (ev ∷ evs) h old = elim (Bool-cases (is_event id ev)) [
  | inl e ↦
      let same : ev.id ≡ id = ground arith in
      let late = subst (λ n. t ≤ time n) same h.0 in absurd (omega (arith, late))
  | inr e ↦ rw e (omega (arith, count-old time id t evs h.1 old))
]

-- The API answers as documented: with the deposits from the asked second on.
abbrev pub IsFrom : (ℕ → ℕ) → Api → Type 0
IsFrom time api =
    (t : ℕ) (found : List GmpEvent)
    → api t ≡ some found
    → All (λ (e : GmpEvent). t ≤ time e.id) found

too_old :
    (api : Api) (time : ℕ → ℕ) (start id : ℕ) (s : BridgeKeeper)
    → IsFrom time api
    → start ≤ s.from_timestamp
    → time id < start / 1000
    → count (is_event id) (fetch_pending_deposits api s) ≡ 0
unfolding fetch_pending_deposits
too_old api time start id s honest moved old = elim (Option-cases (api (s.from_timestamp / 1000))) [
  | inl e ↦ rw (e, fetch_pending_deposits) refl
  | inr (evs, e) ↦
      let recent = honest (s.from_timestamp / 1000) evs e in
      let bound : time id < s.from_timestamp / 1000 = omega (arith, moved, old) in
      let nothing = count-old time id (s.from_timestamp / 1000) evs recent bound in
      rw (e, fetch_pending_deposits)
        (omega (
          arith,
          nothing,
          count-filter_le (is_event id) (λ (ev : GmpEvent). not (has ev.id s.processed)) evs,
        ))
]

module _ {W : Type 0} (chain : Chain W) (bridge : String) where
  -- the window does not move back while the clock does not
  tick-from :
      (api : Api) (now start : ℕ) (s : BridgeKeeper) (w : W)
      → start ≤ s.from_timestamp
      → start ≤ now - 60_000
      → start ≤ (tick chain bridge api now s w).0.from_timestamp
  unfolding tick
  tick-from api now start s w h k = batch (fetch_pending_deposits api s) refl
    where
      batch :
          (evs : List GmpEvent)
          → fetch_pending_deposits api s ≡ evs
          → start ≤ (tick chain bridge api now s w).0.from_timestamp
      batch [] e = rw (e, tick) h
      batch (ev ∷ evs) e = rw (e, tick) k

  never_called :
      (time : ℕ → ℕ) (start id : ℕ) (ticks : List (Api × ℕ)) (s : BridgeKeeper) (w : W)
      → All (λ t. IsFrom time t.0 × (start ≤ t.1 - 60_000)) ticks
      → start ≤ s.from_timestamp
      → time id < start / 1000
      → length (run_calls chain bridge id ticks s w) ≡ 0
  unfolding run_calls
  never_called time start id [] s w h moved old = refl
  never_called time start id ((api, now) ∷ ticks) s w h moved old =
      let batch = fetch_pending_deposits api s in
      let s' = (tick chain bridge api now s w).0 in
      let w' = (tick chain bridge api now s w).1 in
      omega (
        arith,
        too_old api time start id s h.0.0 moved old,
        calls_in-le chain bridge id batch s w,
        length-append (calls_in chain bridge id batch s w) (run_calls chain bridge id ticks s' w'),
        never_called time start id ticks s' w' h.1 (tick-from api now start s w moved h.0.1) old,
      )

  -- A tick that finds a deposit moves the window to one minute before its end, whether or not its calls
  -- succeeded. So where the API answers as documented, with the deposits from the asked second on, and the
  -- clock does not run backwards, no tick of any later sequence makes a call for a deposit that is older
  -- than that: one whose call failed is lost with it.
  pub tick-drops_old :
      (api : Api) (time : ℕ → ℕ) (now id : ℕ) (ev : GmpEvent) (evs : List GmpEvent)
      (ticks : List (Api × ℕ)) (s : BridgeKeeper) (w : W)
      → All (λ t. IsFrom time t.0 × (now ≤ t.1)) ticks
      → fetch_pending_deposits api s ≡ ev ∷ evs
      → time id < (now - 60_000) / 1000
      → run_calls chain bridge id ticks
          (tick chain bridge api now s w).0
          (tick chain bridge api now s w).1
        ≡ []
  unfolding tick
  tick-drops_old api time now id ev evs ticks s w honest found old =
      nothing
        (run_calls chain bridge id ticks (tick chain bridge api now s w).0
          (tick chain bridge api now s w).1)
        (never_called time (now - 60_000) id ticks (tick chain bridge api now s w).0
          (tick chain bridge api now s w).1
          (All-mono (λ t. IsFrom time t.0 × (now ≤ t.1))
            (λ t. IsFrom time t.0 × (now - 60_000 ≤ t.1 - 60_000)) ticks
            (λ t k. (k.0, omega (arith, k.1))) honest)
          (rw (found, tick) (omega arith)) old)
    where
      nothing : (log : Log) → length log ≡ 0 → log ≡ []
      nothing [] e = refl
      nothing (c ∷ log) e = absurd (omega (arith, e))
