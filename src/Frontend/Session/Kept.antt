-- ===== src/Frontend/Session/Kept.antt =====
-- What the session keeps after any actions.
use stellax.Base.{
  ℕ, ◌≤◌, ◌≡◌, refl, ap, ◌∙◌, Bool, true, false, not, Option, none, some, List, [], ◌∷◌, ◌++◌, ◌==◌,
  if◌then◌else◌, filter, find, count, count-append, arith,
}
use stellax.Frontend.Session.{
  SessionPosition, ClosedTrade, SessionState, initial, add_position, remove_position, record_close,
}

pub data Action : Type 0 where
  add : SessionPosition → Action
  remove : ℕ → Action
  close : ClosedTrade → Action

unfoldable pub perform : Action → SessionState → SessionState
unfolding add_position remove_position record_close
perform (add p) s = add_position p s
perform (remove id) s = remove_position id s
perform (close t) s = record_close t s

unfoldable pub run : List Action → SessionState → SessionState
unfolding perform
run [] s = s
run (a ∷ rest) s = run rest (perform a s)

abbrev pub position_at : ℕ → SessionPosition → Bool
position_at id p = p.position_id == id

abbrev pub trade_at : ℕ → ClosedTrade → Bool
trade_at id t = t.position_id == id

-- What the actions say of one id: the position of its last opening unless it was removed after, and the
-- last closed trade.
abbrev pub position_after : ℕ → List Action → Option SessionPosition → Option SessionPosition
position_after id [] o = o
position_after id (add p ∷ rest) o =
    position_after id rest (if p.position_id == id then some p else o)
position_after id (remove i ∷ rest) o = position_after id rest (if i == id then none else o)
position_after id (close t ∷ rest) o = position_after id rest o

abbrev pub trade_after : ℕ → List Action → Option ClosedTrade → Option ClosedTrade
trade_after id [] o = o
trade_after id (add p ∷ rest) o = trade_after id rest o
trade_after id (remove i ∷ rest) o = trade_after id rest o
trade_after id (close t ∷ rest) o = trade_after id rest (if t.position_id == id then some t else o)

-- no two positions and no two trades of one id
abbrev pub IsValid : SessionState → Type 0
IsValid s =
    (id : ℕ) → (count (position_at id) s.positions ≤ 1) × (count (trade_at id) s.closed_trades ≤ 1)

abbrev merged {ℓ} : {A : Type ℓ} → Bool → A → Option A → Option A
merged b a none = if b then some a else none
merged b a (some x) = some x

module _ {A : Type 0} (key : A → ℕ) where
  abbrev keyed : ℕ → A → Bool
  keyed id a = key a == id

  abbrev others : ℕ → A → Bool
  others i a = not (key a == i)

  count-others :
      (id i : ℕ) (xs : List A)
      → count (keyed id) (filter (others i) xs) ≡ (if i == id then 0 else count (keyed id) xs)
  count-others id i [] = ground arith
  count-others id i (x ∷ xs) = ground (arith, count-others id i xs)

  find-others :
      (id i : ℕ) (xs : List A)
      → find (keyed id) (filter (others i) xs) ≡ (if i == id then none else find (keyed id) xs)
  find-others id i [] = ground arith
  find-others id i (x ∷ xs) = ground (arith, find-others id i xs)

  find-append :
      (id : ℕ) (xs : List A) (a : A)
      → find (keyed id) (xs ++ (a ∷ [])) ≡ merged (key a == id) a (find (keyed id) xs)
  find-append id [] a = refl
  find-append id (x ∷ xs) a = ground (arith, find-append id xs a)

  merged_same :
      (b : Bool) (a : A) (o : Option A)
      → merged b a (if b then none else o) ≡ (if b then some a else o)
  merged_same true a o = refl
  merged_same false a none = refl
  merged_same false a (some x) = refl

  -- putting an element in place of those with its key, at the end or at the front
  find-put_last :
      (id : ℕ) (a : A) (xs : List A)
      → find (keyed id) (filter (others (key a)) xs ++ (a ∷ []))
        ≡ (if key a == id then some a else find (keyed id) xs)
  find-put_last id a xs =
      find-append id (filter (others (key a)) xs) a
      ∙ ap (merged (key a == id) a) (find-others id (key a) xs)
      ∙ merged_same (key a == id) a (find (keyed id) xs)

  find-put_first :
      (id : ℕ) (a : A) (xs : List A)
      → find (keyed id) (a ∷ filter (others (key a)) xs)
        ≡ (if key a == id then some a else find (keyed id) xs)
  find-put_first id a xs = ground (arith, find-others id (key a) xs)

  count-put_last :
      (id : ℕ) (a : A) (xs : List A)
      → count (keyed id) xs ≤ 1
      → count (keyed id) (filter (others (key a)) xs ++ (a ∷ [])) ≤ 1
  count-put_last id a xs h = ground (
    arith,
    h,
    count-append (keyed id) (filter (others (key a)) xs) (a ∷ []),
    count-others id (key a) xs,
  )

  count-put_first :
      (id : ℕ) (a : A) (xs : List A)
      → count (keyed id) xs ≤ 1
      → count (keyed id) (a ∷ filter (others (key a)) xs) ≤ 1
  count-put_first id a xs h = ground (arith, h, count-others id (key a) xs)

abbrev position_key : SessionPosition → ℕ
position_key p = p.position_id

abbrev trade_key : ClosedTrade → ℕ
trade_key t = t.position_id

perform-IsValid : (a : Action) (s : SessionState) → IsValid s → IsValid (perform a s)
unfolding perform add_position remove_position record_close
perform-IsValid (add p) s h id = (count-put_last position_key id p s.positions (h id).0, (h id).1)
perform-IsValid (remove i) s h id =
    (ground (arith, (h id).0, count-others position_key id i s.positions), (h id).1)
perform-IsValid (close t) s h id =
    ((h id).0, count-put_first trade_key id t s.closed_trades (h id).1)

run-IsValid : (actions : List Action) (s : SessionState) → IsValid s → IsValid (run actions s)
unfolding run
run-IsValid [] s h = h
run-IsValid (a ∷ rest) s h = run-IsValid rest (perform a s) (perform-IsValid a s h)

run-position :
    (id : ℕ) (actions : List Action) (s : SessionState)
    → find (position_at id) (run actions s).positions
      ≡ position_after id actions (find (position_at id) s.positions)
unfolding run perform add_position remove_position record_close
run-position id [] s = refl
run-position id (add p ∷ rest) s =
    run-position id rest (add_position p s)
    ∙ ap (position_after id rest) (find-put_last position_key id p s.positions)
run-position id (remove i ∷ rest) s =
    run-position id rest (remove_position i s)
    ∙ ap (position_after id rest) (find-others position_key id i s.positions)
run-position id (close t ∷ rest) s = run-position id rest (record_close t s)

run-trade :
    (id : ℕ) (actions : List Action) (s : SessionState)
    → find (trade_at id) (run actions s).closed_trades
      ≡ trade_after id actions (find (trade_at id) s.closed_trades)
unfolding run perform add_position remove_position record_close
run-trade id [] s = refl
run-trade id (add p ∷ rest) s = run-trade id rest (add_position p s)
run-trade id (remove i ∷ rest) s = run-trade id rest (remove_position i s)
run-trade id (close t ∷ rest) s =
    run-trade id rest (record_close t s)
    ∙ ap (trade_after id rest) (find-put_first trade_key id t s.closed_trades)

-- After any actions from an empty session, no id has two positions or two closed trades; the position of
-- an id is that of its last opening unless it was removed after it, and its closed trade the last one.
pub run-keeps :
    (id : ℕ) (actions : List Action)
    → let s = run actions initial in
      (count (position_at id) s.positions ≤ 1)
      × (count (trade_at id) s.closed_trades ≤ 1)
      × (find (position_at id) s.positions ≡ position_after id actions none)
      × (find (trade_at id) s.closed_trades ≡ trade_after id actions none)
run-keeps id actions =
    let valid = run-IsValid actions initial (λ i. (omega arith, omega arith)) id in
    (valid.0, valid.1, run-position id actions initial, run-trade id actions initial)
