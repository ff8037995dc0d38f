-- ===== src/Keeper/Queue/Order.antt =====
-- The calls of the queue run one at a time and in the order in which they entered it.
use stellax.Base.{
  ℕ, zero, suc, ◌+◌, ◌<◌, ◌≤◌, ◌≡◌, ◌⊎◌, inl, inr, refl, sym, ap, ◌∙◌, subst, Option, none, some,
  List, [], ◌∷◌, ◌++◌, Elem, ◌==◌, true, length, arith,
}
use stellax.Keeper.Queue.{
  TxQueue, new, enter, without_call, begin, without, finish, IsResolved, Step, entered, began,
  finished, Reach, start, next,
}

-- the promise that a call awaits
abbrev pub before : ℕ → Option ℕ
before zero = none
before (suc n) = some n

abbrev pub chain : ℕ → ℕ → List (ℕ × Option ℕ)
chain k zero = []
chain k (suc m) = (k, before k) ∷ chain (suc k) m

-- n - 1, ..., 1, 0
abbrev pub down : ℕ → List ℕ
down zero = []
down (suc n) = n ∷ down n

chain-append : (k m n : ℕ) → n ≡ k + m → chain k m ++ ((n, before n) ∷ []) ≡ chain k (suc m)
chain-append k zero n h = let same : n ≡ k = omega (arith, h) in ap (λ x. (x, before x) ∷ []) same
chain-append k (suc m) n h = ap ((k, before k) ∷◌) (chain-append (suc k) m n (omega (arith, h)))

Elem-chain :
    (k m : ℕ) {t : ℕ} {p : Option ℕ}
    → Elem (t, p) (chain k m)
    → (i : ℕ) × (i < m) × (t ≡ k + i) × (p ≡ before (k + i))
Elem-chain k zero e = absurd (e tt)
Elem-chain k (suc m) (inl e) =
    let zeroth : k ≡ k + 0 = omega arith in
    (0, omega arith, ap (λ x. x.0) e ∙ zeroth, ap (λ x. x.1) e ∙ ap before zeroth)
Elem-chain k (suc m) (inr e) =
    let (i, l, t, p) = Elem-chain (suc k) m e in
    let shift : suc k + i ≡ k + suc i = omega arith in
    (suc i, omega (arith, l), t ∙ shift, p ∙ ap before shift)

Elem-down : (n : ℕ) {p : ℕ} → Elem p (down n) → p < n
Elem-down zero e = absurd (e tt)
Elem-down (suc n) (inl e) = omega (arith, e)
Elem-down (suc n) (inr e) = omega (arith, Elem-down n e)

-- nothing runs, or the call that began last
abbrev pub AtMostLast : ℕ → TxQueue → Type 0
AtMostLast past s =
    ((s.running ≡ []) × (s.resolved ≡ down past))
    ⊎ ((j : ℕ) × (past ≡ suc j) × (s.running ≡ j ∷ []) × (s.resolved ≡ down j))

-- The queue after `past` calls have begun and while `left` wait.
pub record InOrder (s : TxQueue) : Type 0 where
  pub past : ℕ
  pub left : ℕ
  pub numbered : s.next ≡ past + left
  pub at_end : s.tail ≡ before (past + left)
  pub in_line : s.waiting ≡ chain past left
  pub log : s.begun ≡ down past
  pub last : AtMostLast past s

resolved_past : (past : ℕ) (s : TxQueue) (p : ℕ) → AtMostLast past s → Elem p s.resolved → p < past
resolved_past past s p (inl (r, d)) e = Elem-down past (subst (Elem p) d e)
resolved_past past s p (inr (j, k, r, d)) e = omega (arith, k, Elem-down j (subst (Elem p) d e))

enter-InOrder : (s : TxQueue) → InOrder s → InOrder (enter s)
unfolding enter
enter-InOrder s h =
    let longer : suc s.next ≡ h.past + suc h.left = omega (arith, h.numbered) in
    record {
      past = h.past;
      left = suc h.left;
      numbered = omega (arith, h.numbered);
      at_end = ap before longer;
      in_line =
          ap (λ w. w ++ ((s.next, s.tail) ∷ [])) h.in_line
          ∙ ap (λ p. chain h.past h.left ++ ((s.next, p) ∷ []))
              (h.at_end ∙ ap before (sym h.numbered))
          ∙ chain-append h.past h.left s.next h.numbered;
      log = h.log;
      last = h.last;
    }

awaits :
    (s : TxQueue) (prev : Option ℕ) (m n : ℕ)
    → IsResolved prev s
    → prev ≡ before m
    → m ≡ suc n
    → Elem n s.resolved
awaits s prev m n r e k = subst (λ p. IsResolved p s) (e ∙ ap before k) r

nothing_runs :
    (s : TxQueue) (past : ℕ) (prev : Option ℕ)
    → AtMostLast past s
    → IsResolved prev s
    → prev ≡ before past
    → (s.running ≡ []) × (s.resolved ≡ down past)
nothing_runs s past prev (inl free) r e = free
nothing_runs s past prev (inr (j, k, busy, d)) r e =
    absurd (omega (arith, Elem-down j (subst (Elem j) d (awaits s prev past j r e k))))

-- Only the first in line may begin, and only while nothing runs.
begins_at :
    (s : TxQueue) (past left t : ℕ) (prev : Option ℕ) (i : ℕ)
    → AtMostLast past s
    → IsResolved prev s
    → i < left
    → t ≡ past + i
    → prev ≡ before (past + i)
    → (t ≡ past) × (0 < left) × (s.running ≡ []) × (s.resolved ≡ down past)
begins_at s past left t prev zero last r l te pe =
    let same : past + 0 ≡ past = omega arith in
    let free = nothing_runs s past prev last r (pe ∙ ap before same) in
    (omega (arith, te), omega (arith, l), free.0, free.1)
begins_at s past left t prev (suc i) last r l te pe =
    let up : past + suc i ≡ suc (past + i) = omega arith in
    absurd (
      omega (
        arith,
        resolved_past past s (past + i) last (awaits s prev (past + suc i) (past + i) r pe up),
      ))

begin-first :
    (s : TxQueue) (past left t : ℕ)
    → s.next ≡ past + left
    → s.tail ≡ before (past + left)
    → s.waiting ≡ chain past left
    → s.begun ≡ down past
    → (t ≡ past) × (0 < left) × (s.running ≡ []) × (s.resolved ≡ down past)
    → InOrder (begin t s)
unfolding begin
begin-first s past zero t n a w g f = absurd (omega (arith, f.1))
begin-first s past (suc left) t n a w g f =
    let shift : past + suc left ≡ suc past + left = omega arith in
    record {
      past = suc past;
      left = left;
      numbered = n ∙ shift;
      at_end = a ∙ ap before shift;
      in_line = rw (f.0, w) (head_gone past (chain (suc past) left));
      log = rw (f.0, g) refl;
      last = inr (past, refl, rw (f.0, f.2) refl, f.3);
    }
  where
    head_gone :
        (k : ℕ) (calls : List (ℕ × Option ℕ)) → without_call k ((k, before k) ∷ calls) ≡ calls
    head_gone k calls = let self : (k == k) ≡ true = ground arith in rw self refl

finish-last :
    (s : TxQueue) (h : InOrder s) (t : ℕ)
    → Elem t s.running
    → AtMostLast h.past s
    → InOrder (finish t s)
unfolding finish
finish-last s h t e (inl free) = absurd (subst (Elem t) free.0 e tt)
finish-last s h t e (inr (j, k, busy, d)) =
    let same = only_one t j (subst (Elem t) busy e) in
    record {
      past = h.past;
      left = h.left;
      numbered = h.numbered;
      at_end = h.at_end;
      in_line = h.in_line;
      log = h.log;
      last = inl (rw (same, busy) (gone j), rw (same, d, k) refl);
    }
  where
    only_one : (t j : ℕ) → Elem t (j ∷ []) → t ≡ j
    only_one t j (inl e) = e
    only_one t j (inr e) = absurd (e tt)

    gone : (j : ℕ) → without j (j ∷ []) ≡ []
    gone j = let self : (j == j) ≡ true = ground arith in rw self refl

Step-InOrder : {s t : TxQueue} → Step s t → InOrder s → InOrder t
Step-InOrder (entered s) h = enter-InOrder s h
Step-InOrder (began s t prev e r) h =
    let (i, l, te, pe) = Elem-chain h.past h.left (subst (Elem (t, prev)) h.in_line e) in
    begin-first s h.past h.left t h.numbered h.at_end h.in_line h.log
      (begins_at s h.past h.left t prev i h.last r l te pe)
Step-InOrder (finished s t e) h = finish-last s h t e h.last

Reach-InOrder : {s : TxQueue} → Reach s → InOrder s
unfolding new
Reach-InOrder start = record {
  past = 0;
  left = 0;
  numbered = omega arith;
  at_end = refl;
  in_line = refl;
  log = refl;
  last = inl (refl, refl);
}
Reach-InOrder (next r st) = Step-InOrder st (Reach-InOrder r)

at_most_one : (s : TxQueue) (past : ℕ) → AtMostLast past s → length s.running ≤ 1
at_most_one s past (inl free) = omega (arith, ap (λ xs. length xs) free.0)
at_most_one s past (inr (j, k, busy, d)) = omega (arith, ap (λ xs. length xs) busy)

before_resolved : (s : TxQueue) (past : ℕ) → s.resolved ≡ down past → IsResolved (before past) s
before_resolved s zero d = tt
before_resolved s (suc j) d = subst (Elem j) (sym d) (inl refl)

goes_on :
    (s : TxQueue) (past left : ℕ)
    → s.waiting ≡ chain past left
    → AtMostLast past s
    → (s.waiting ≡ [])
      ⊎ ((t : ℕ) × Elem t s.running)
      ⊎ ((t : ℕ) × (prev : Option ℕ) × Elem (t, prev) s.waiting × IsResolved prev s)
goes_on s past left w (inr (j, k, busy, d)) = inr (inl (j, subst (Elem j) (sym busy) (inl refl)))
goes_on s past zero w (inl free) = inl w
goes_on s past (suc left) w (inl free) = inr (
    inr (
      past,
      before past,
      subst (Elem (past, before past)) (sym w) (inl refl),
      before_resolved s past free.1,
    ))

-- Whatever calls enter the queue and in whatever order the event loop goes on with them, at most one is
-- past its `await` at a time, they have got past it in the order in which they entered, none left out,
-- and no call is stuck: as long as one waits, a call is running, or one may get past its `await`.
pub Reach-serial :
    {s : TxQueue}
    → Reach s
    → (length s.running ≤ 1)
      × ((k : ℕ) × (k ≤ s.next) × (s.begun ≡ down k))
      × ((s.waiting ≡ [])
          ⊎ ((t : ℕ) × Elem t s.running)
          ⊎ ((t : ℕ) × (prev : Option ℕ) × Elem (t, prev) s.waiting × IsResolved prev s))
Reach-serial {s = s} r =
    let h = Reach-InOrder r in
    (
      at_most_one s h.past h.last,
      (h.past, omega (arith, h.numbered), h.log),
      goes_on s h.past h.left h.in_line h.last,
    )
