-- ===== src/Keeper/AdminOracle/Rising.antt =====
-- The package timestamps that the oracle accepts from this worker rise strictly, asset by asset.
use Prim.Native.String.{String}
use text.Mathlib.Text.{◌==◌ as str_eq}
use text.Mathlib.TextEquality.{eq_iff}
use stellax.Base.{
  ℕ, ◌≤◌, ◌<◌, ◌≡◌, ◌≢◌, refl, Bool, Option, some, List, [], ◌∷◌, ◌++◌, sym, ap, ◌∙◌, true, false,
  append_assoc, append-nil, All-append, arith, if◌then◌else◌, inl, inr, Bool-cases, Option-cases,
  All,
}
use stellax.Base.Int.{ℤ, pos, ◌≤ℤ◌, ◌<ℤ◌}
use stellax.Keeper.Chain.{Chain, Invocation, Call, admin_push_price, Log, recording}
use stellax.Keeper.AdminOracle.{
  Stamps, get, put, Readings, or_else, pkg_ts, Push, plan, push_call, push_all, Input, run_ticks,
}

pub get-put :
    (k j : String) (v : ℕ) (m : Stamps)
    → get j (put k v m) ≡ (if str_eq k j then some v else get j m)
get-put k j v [] = refl
get-put k j v ((i, w) ∷ m) = ground (arith, eq_iff k j, eq_iff i k, eq_iff i j, get-put k j v m)

-- The timestamp is after the last one accepted, and not before the clock, if the clock does not run
-- backwards between its readings.
pub pkg_ts-after :
    (r : Readings) (last : Option ℕ)
    → r.tested ≤ r.used
    → (or_else last r.fallback < pkg_ts r last) × (r.tested ≤ pkg_ts r last)
unfolding pkg_ts
pkg_ts-after r last h = ground arith

-- The asset and the timestamp of a push that the chain accepted, in the order of the calls.
abbrev pub Stamp : Type 0
Stamp = String × ℤ

abbrev pub stamps_of : Call → List Stamp
stamps_of (admin_push_price asset price18 ts) = (asset, ts) ∷ []
stamps_of other = []

abbrev pub accepted : Log → List Stamp
accepted [] = []
accepted ((i, done) ∷ log) = (if done then stamps_of i.call else []) ++ accepted log

abbrev pub stamp : Push → Stamp
stamp p = (p.asset, pos p.ts)

pub accepted-append : (xs ys : Log) → accepted (xs ++ ys) ≡ accepted xs ++ accepted ys
accepted-append [] ys = refl
accepted-append ((i, true) ∷ xs) ys =
    ap (◌++◌ (stamps_of i.call)) (accepted-append xs ys)
    ∙ sym (append_assoc (stamps_of i.call) (accepted xs) (accepted ys))
accepted-append ((i, false) ∷ xs) ys = accepted-append xs ys

-- The later pushes of an asset have later timestamps.
abbrev pub Rising : List Stamp → Type 0
Rising [] = Unit
Rising (p ∷ ps) = All (λ q. q.0 ≡ p.0 → p.1 <ℤ q.1) ps × Rising ps

Rising-snoc :
    (p : Stamp) (ps : List Stamp)
    → Rising ps
    → All (λ q. q.0 ≡ p.0 → q.1 <ℤ p.1) ps
    → Rising (ps ++ (p ∷ []))
Rising-snoc p [] r h = (tt, tt)
Rising-snoc p (q ∷ qs) r h = (
  All-append (λ s. s.0 ≡ q.0 → q.1 <ℤ s.1) qs (p ∷ []) r.0 ((λ e. h.0 (sym e)), tt),
  Rising-snoc p qs r.1 h.1,
)

-- every accepted push is at most the stamp kept for its asset
abbrev pub Bounded : Stamps → List Stamp → Type 0
Bounded last = All λ q. (v : ℕ) × (get q.0 last ≡ some v) × (q.1 ≤ℤ pos v)

abbrev pub After : Stamps → List Push → Type 0
After last = All λ p. (v : ℕ) → get p.asset last ≡ some v → v < p.ts

abbrev OtherAssets : Push → List Push → Type 0
OtherAssets p = All λ q. p.asset ≢ q.asset

abbrev pub Apart : List Push → Type 0
Apart [] = Unit
Apart (p ∷ ps) = OtherAssets p ps × Apart ps

abbrev pub Distinct : List String → Type 0
Distinct [] = Unit
Distinct (a ∷ rest) = All (λ b. a ≢ b) rest × Distinct rest

-- a push that is accepted keeps the history bounded
put-Bounded :
    (p : Push) (last : Stamps) (history : List Stamp)
    → ((v : ℕ) → get p.asset last ≡ some v → v < p.ts)
    → Bounded last history
    → Bounded (put p.asset p.ts last) history
put-Bounded p last [] fresh b = tt
put-Bounded p last (q ∷ history) fresh b = (
  elim (Bool-cases (str_eq p.asset q.0)) [
    | inl e ↦ (
      p.ts,
      rw (get-put p.asset q.0 p.ts last) (rw e refl),
      ground (arith, eq_iff p.asset q.0, fresh b.0.0, b.0.1),
    )
    | inr e ↦ (b.0.0, rw (get-put p.asset q.0 p.ts last) (rw e b.0.1), b.0.2)
  ],
  put-Bounded p last history fresh b.1,
)

put-After :
    (p : Push) (last : Stamps) (ps : List Push)
    → OtherAssets p ps
    → After last ps
    → After (put p.asset p.ts last) ps
put-After p last [] o a = tt
put-After p last (q ∷ ps) o a = (
  λ v e. a.0 v (ground (arith, eq_iff p.asset q.asset, get-put p.asset q.asset p.ts last)),
  put-After p last ps o.1 a.1,
)

later :
    (p : Push) (last : Stamps) (history : List Stamp)
    → ((v : ℕ) → get p.asset last ≡ some v → v < p.ts)
    → Bounded last history
    → All (λ q. q.0 ≡ p.asset → q.1 <ℤ pos p.ts) history
later p last [] fresh b = tt
later p last (q ∷ history) fresh b =
    (λ same. ground (arith, fresh b.0.0 (rw (← same) b.0.1), b.0.2), later p last history fresh b.1)

record Kept {W : Type 0} (r : Stamps × (W × Log)) : Type 0 where
  bounded : Bounded r.0 (accepted r.1.1)
  rising : Rising (accepted r.1.1)

-- one accepted push
accept-Kept :
    {W : Type 0} (oracle : String) (p : Push) (last : Stamps) (w w' : W) (log : Log)
    → ((v : ℕ) → get p.asset last ≡ some v → v < p.ts)
    → Kept (last, (w, log))
    → Kept (put p.asset p.ts last, (w', log ++ ((push_call oracle p, true) ∷ [])))
accept-Kept oracle p last w w' log fresh k =
    let grown = accepted-append log ((push_call oracle p, true) ∷ []) in
    record {
      bounded = rw grown (
          All-append (λ q. (v : ℕ) × (get q.0 (put p.asset p.ts last) ≡ some v) × (q.1 ≤ℤ pos v))
            (accepted log) (stamp p ∷ []) (put-Bounded p last (accepted log) fresh k.bounded)
            (
              (
                p.ts,
                ground (arith, eq_iff p.asset p.asset, get-put p.asset p.asset p.ts last),
                ground arith,
              ),
              tt,
            ));
      rising = rw grown (
          Rising-snoc (stamp p) (accepted log) k.rising
            (later p last (accepted log) fresh k.bounded));
    }

refuse-Kept :
    {W : Type 0} (i : Invocation) (last : Stamps) (w w' : W) (log : Log)
    → Kept (last, (w, log))
    → Kept (last, (w', log ++ ((i, false) ∷ [])))
refuse-Kept i last w w' log k =
    let same = accepted-append log ((i, false) ∷ []) ∙ append-nil (accepted log) in
    record { bounded = rw same k.bounded; rising = rw same k.rising }

push_all-Kept :
    {W : Type 0} (chain : Chain W) (oracle : String) (ps : List Push) (last : Stamps) (w : W × Log)
    → Apart ps
    → After last ps
    → Kept (last, w)
    → Kept (push_all (recording chain) oracle ps last w)
unfolding push_all
push_all-Kept chain oracle [] last w apart after k = k
push_all-Kept chain oracle (p ∷ ps) last w apart after k =
    let w' = (chain (push_call oracle p) w.0).1 in
    elim (Bool-cases (chain (push_call oracle p) w.0).0) [
      | inl done ↦ rw done (
          push_all-Kept chain oracle ps (put p.asset p.ts last)
            (w', w.1 ++ ((push_call oracle p, true) ∷ [])) apart.1
            (put-After p last ps apart.0 after.1) (accept-Kept oracle p last w.0 w' w.1 after.0 k))
      | inr threw ↦ rw threw (
          push_all-Kept chain oracle ps last (w', w.1 ++ ((push_call oracle p, false) ∷ [])) apart.1
            after.1 (refuse-Kept (push_call oracle p) last w.0 w' w.1 k))
    ]

pub record Planned (last : Stamps) (assets : List String) (ps : List Push) : Type 0 where
  pub apart : Apart ps
  pub after : After last ps
  pub others : (a : String) → All (λ b. a ≢ b) assets → All (λ p. a ≢ p.asset) ps

Planned-skip :
    (a : String) (last : Stamps) (assets : List String) (ps : List Push)
    → Planned last assets ps
    → Planned last (a ∷ assets) ps
Planned-skip a last assets ps p = record {
  apart = p.apart;
  after = p.after;
  others = λ b h. p.others b h.1;
}

module _ {Price : Type 0} (is_valid : Price → Bool) (to_fixed18 : Price → Option ℤ) where
  pub plan-Planned :
      (i : Input Price) (last : Stamps) (assets : List String)
      → ((a : String) → (i.clock a).tested ≤ (i.clock a).used)
      → Distinct assets
      → Planned last assets (plan is_valid to_fixed18 i.clock i.prices last assets)
  unfolding plan
  plan-Planned i last [] mono d = record { apart = tt; after = tt; others = λ a h. tt }
  plan-Planned i last (a ∷ assets) mono d =
      let p = plan-Planned i last assets mono d.1 in
      elim (Option-cases (i.prices a)) [
        | inl e ↦ rw (e, plan) (Planned-skip a last assets _ p)
        | inr (price, e) ↦
            rw (e, plan)
              (elim (Bool-cases (is_valid price)) [
                | inr bad ↦ rw bad (Planned-skip a last assets _ p)
                | inl good ↦ rw good (elim (Option-cases (to_fixed18 price)) [
                  | inl f ↦ rw f (Planned-skip a last assets _ p)
                  | inr (x, f) ↦ rw f (record {
                    apart = (p.others a d.0, p.apart);
                    after = (
                      λ v k. ground (arith, pkg_ts-after (i.clock a) (get a last) (mono a)),
                      p.after,
                    );
                    others = λ b h. (h.0, p.others b h.1);
                  })
                ])
              ])
      ]

  run_ticks-Kept :
      {W : Type 0} (chain : Chain W) (oracle : String) (assets : List String)
      (is : List (Input Price)) (last : Stamps) (w : W × Log)
      → Distinct assets
      → All (λ i. (a : String) → (i.clock a).tested ≤ (i.clock a).used) is
      → Kept (last, w)
      → Kept (run_ticks is_valid to_fixed18 (recording chain) oracle assets is last w)
  unfolding run_ticks
  run_ticks-Kept chain oracle assets [] last w d m k = k
  run_ticks-Kept chain oracle assets (i ∷ is) last w d m k =
      let pl = plan-Planned i last assets m.0 d in
      let ps = plan is_valid to_fixed18 i.clock i.prices last assets in
      let k' = push_all-Kept chain oracle ps last w pl.apart pl.after k in
      let (last', w') = push_all (recording chain) oracle ps last w in
      run_ticks-Kept chain oracle assets is last' w' d m.1 k'

  -- Over any number of ticks that do not overlap, whatever the chain answers: if no asset is listed twice
  -- and the clock does not run backwards within a tick, the pushes of each asset that the chain accepts
  -- carry strictly rising timestamps, in the order of the calls.
  pub run_ticks-Rising :
      {W : Type 0} (chain : Chain W) (oracle : String) (assets : List String)
      (is : List (Input Price)) (last : Stamps) (w : W)
      → Distinct assets
      → All (λ i. (a : String) → (i.clock a).tested ≤ (i.clock a).used) is
      → Rising (
          accepted
            (run_ticks is_valid to_fixed18 (recording chain) oracle assets is last (w, [])).1.1)
  run_ticks-Rising chain oracle assets is last w d m =
      (run_ticks-Kept chain oracle assets is last (w, []) d m
        (record { bounded = tt; rising = tt })).rising
