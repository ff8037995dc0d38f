-- ===== src/Keeper/AdminOracle/Overlap.antt =====
-- The package timestamps where ticks of this worker overlap.
use Prim.Native.String.{String}
use text.Mathlib.Text.{◌==◌ as str_eq}
use text.Mathlib.TextEquality.{eq_iff}
use stellax.Base.{
  ℕ, ◌+◌, ◌≤◌, ◌<◌, ◌≡◌, refl, sym, ap, ◌∙◌, ◌⊎◌, Bool, true, false, Option, some, List, [], ◌∷◌,
  ◌++◌, append_assoc, append-nil, map, arith, inl, inr, Bool-cases, Option-cases, All, All-append,
  All-mono,
}
use stellax.Base.Int.{ℤ, pos, ◌≤ℤ◌}
use stellax.Keeper.Chain.{Chain, Log, recording}
use stellax.Keeper.AdminOracle.{
  Stamps, get, put, pkg_ts, Push, plan, push_call, Input, Moment, planned, settled, Pusher, settle,
  run_moments,
}
use stellax.Keeper.AdminOracle.Rising.{
  get-put, Stamp, stamp, accepted, accepted-append, Distinct, After, plan-Planned,
}
use stellax.Keeper.AdminOracle.Ordered.{
  Ordered, Timed, Within, Ordered-append, Ordered-left, Ordered-right, All-drop, Ordered-drop,
  pkg_ts-between, Ordered-Apart, after-bounded,
}

-- the state of an interleaving: the accepted pushes, and behind them those that wait
record Held {W : Type 0} (t : ℕ) (s : Pusher) (w : W × Log) : Type 0 where
  ordered : Ordered (accepted w.1 ++ map stamp s.queue)
  within : All (Within t s.last) (accepted w.1 ++ map stamp s.queue)
  low : All (λ p. (v : ℕ) → get p.asset s.last ≡ some v → v ≤ p.ts) s.queue

Within-later : (t t' : ℕ) (last : Stamps) (q : Stamp) → t ≤ t' → Within t last q → Within t' last q
Within-later t t' last q h (inl w) = inl (omega (arith, h, w))
Within-later t t' last q h (inr w) = inr w

Within-put :
    (t : ℕ) (p : Push) (last : Stamps) (q : Stamp)
    → ((v : ℕ) → get p.asset last ≡ some v → v ≤ p.ts)
    → Within t last q
    → Within t (put p.asset p.ts last) q
Within-put t p last q low (inl w) = inl w
Within-put t p last q low (inr (v, g, w)) = elim (Bool-cases (str_eq p.asset q.0)) [
  | inl e ↦ inr (
    p.ts,
    rw (get-put p.asset q.0 p.ts last) (rw e refl),
    ground (arith, eq_iff p.asset q.0, low v, g, w),
  )
  | inr e ↦ inr (v, rw (get-put p.asset q.0 p.ts last) (rw e g), w)
]

low-put :
    (p : Push) (last : Stamps) (ps : List Push)
    → All (λ q. q.0 ≡ p.asset → pos p.ts ≤ℤ q.1) (map stamp ps)
    → All (λ q. (v : ℕ) → get q.asset last ≡ some v → v ≤ q.ts) ps
    → All (λ q. (v : ℕ) → get q.asset (put p.asset p.ts last) ≡ some v → v ≤ q.ts) ps
low-put p last [] o h = tt
low-put p last (q ∷ ps) o h = (
  λ v g. elim (Bool-cases (str_eq p.asset q.asset)) [
    | inl e ↦ ground (arith, eq_iff p.asset q.asset, get-put p.asset q.asset p.ts last, o.0)
    | inr e ↦ h.0 v (sym (rw (get-put p.asset q.asset p.ts last) (rw e refl)) ∙ g)
  ],
  low-put p last ps o.1 h.1,
)

module _ {W : Type 0} (chain : Chain W) (oracle : String) where
  settle-Held :
      (t : ℕ) (queue : List Push) (last : Stamps) (w : W × Log)
      → Held t (record { last = last; queue = queue }) w
      → Held t
          (settle (recording chain) oracle queue last w).0
          (settle (recording chain) oracle queue last w).1
  unfolding settle
  settle-Held t [] last w h = h
  settle-Held t (p ∷ ps) last w h =
      let log = accepted w.1 in
      elim (Bool-cases (chain (push_call oracle p) w.0).0) [
        | inl done ↦
            let grown : accepted (w.1 ++ ((push_call oracle p, true) ∷ [])) ++ map stamp ps
                ≡ log ++ (stamp p ∷ map stamp ps) =
              ap (λ xs. xs ++ map stamp ps) (accepted-append w.1 ((push_call oracle p, true) ∷ []))
              ∙ append_assoc log (stamp p ∷ []) (map stamp ps) in
            rw done (record {
              ordered = rw grown h.ordered;
              within = rw grown (
                  All-mono (Within t last) (Within t (put p.asset p.ts last))
                    (log ++ (stamp p ∷ map stamp ps)) (λ q k. Within-put t p last q h.low.0 k)
                    h.within);
              low =
                  low-put p last ps (Ordered-right log (stamp p ∷ map stamp ps) h.ordered).0
                    h.low.1;
            })
        | inr threw ↦
            let same : accepted (w.1 ++ ((push_call oracle p, false) ∷ [])) ≡ log =
              accepted-append w.1 ((push_call oracle p, false) ∷ []) ∙ append-nil log in
            rw threw (record {
              ordered = rw same (Ordered-drop log (map stamp ps) (stamp p) h.ordered);
              within = rw same (All-drop (Within t last) log (map stamp ps) (stamp p) h.within);
              low = h.low.1;
            })
      ]

Within-of :
    (t : ℕ) (last : Stamps) (a : String) (n : ℕ)
    → (n ≤ t + 1) ⊎ ((v : ℕ) × (get a last ≡ some v) × (n ≤ v + 1))
    → Within t last (a, pos n)
Within-of t last a n (inl h) = inl (omega (arith, h))
Within-of t last a n (inr (v, g, h)) = inr (v, g, omega (arith, h))

module _ {Price : Type 0} (is_valid : Price → Bool) (to_fixed18 : Price → Option ℤ) where
  plan-between :
      (i : Input Price) (last : Stamps) (t t' : ℕ) (assets : List String)
      → ((a : String)
          → (t < (i.clock a).tested)
            × ((i.clock a).tested ≤ (i.clock a).used)
            × ((i.clock a).used ≤ t')
            × ((i.clock a).fallback ≤ t'))
      → let ps = plan is_valid to_fixed18 i.clock i.prices last assets in
        All (λ p. t < p.ts) ps × All (Within t' last) (map stamp ps)
  unfolding plan
  plan-between i last t t' [] h = (tt, tt)
  plan-between i last t t' (a ∷ assets) h =
      let rest = plan-between i last t t' assets h in
      let (tested, used, until, fallback) = h a in
      let here = pkg_ts-between (i.clock a) (get a last) t t' tested used until fallback in
      let bound = Within-of t' last a (pkg_ts (i.clock a) (get a last)) here.1 in
      elim (Option-cases (i.prices a)) [
        | inl e ↦ rw (e, plan) rest
        | inr (price, e) ↦ elim (Bool-cases (is_valid price)) [
          | inr bad ↦ rw (e, plan) (rw bad rest)
          | inl good ↦ elim (Option-cases (to_fixed18 price)) [
            | inl f ↦ rw (e, plan) (rw good (rw f rest))
            | inr (x, f) ↦ rw (e, plan) (rw good (rw f ((here.0, rest.0), (bound, rest.1))))
          ]
        ]
      ]

  low-planned :
      (last : Stamps) (ps : List Push)
      → After last ps
      → All (λ q. (v : ℕ) → get q.asset last ≡ some v → v ≤ q.ts) ps
  low-planned last [] a = tt
  low-planned last (p ∷ ps) a = (λ v g. omega (arith, a.0 v g), low-planned last ps a.1)

  all-after :
      (t : ℕ) (last : Stamps) (qs : List Stamp) (ps : List Push)
      → All (Within t last) qs
      → After last ps
      → All (λ p. t < p.ts) ps
      → All (λ q. All (λ r. r.0 ≡ q.0 → q.1 ≤ℤ r.1) (map stamp ps)) qs
  all-after t last [] ps w a h = tt
  all-after t last (q ∷ qs) ps w a h =
      (after-bounded t last q ps w.0 a h, all-after t last qs ps w.1 a h)

  map-append : (ps qs : List Push) → map stamp (ps ++ qs) ≡ map stamp ps ++ map stamp qs
  map-append [] qs = refl
  map-append (p ∷ ps) qs = ap (◌∷◌ (stamp p)) (map-append ps qs)

  plan-Held :
      {W : Type 0} (i : Input Price) (assets : List String) (t t' : ℕ) (s : Pusher) (w : W × Log)
      → ((a : String)
          → (t < (i.clock a).tested)
            × ((i.clock a).tested ≤ (i.clock a).used)
            × ((i.clock a).used ≤ t')
            × ((i.clock a).fallback ≤ t'))
      → Distinct assets
      → Held t s w
      → Held t'
          (record s { queue = s.queue ++ plan is_valid to_fixed18 i.clock i.prices s.last assets })
          w
  plan-Held i assets t t' s w times d h =
      let ps = plan is_valid to_fixed18 i.clock i.prices s.last assets in
      let waiting = accepted w.1 ++ map stamp s.queue in
      let pl = plan-Planned is_valid to_fixed18 i s.last assets (λ a. (times a).1) d in
      let (fresh, bounds) = plan-between i s.last t t' assets times in
      let later : t ≤ t' = omega (arith, (times "").0, (times "").1, (times "").2) in
      let grown : accepted w.1 ++ map stamp (s.queue ++ ps) ≡ waiting ++ map stamp ps =
        ap (◌++◌ (accepted w.1)) (map-append s.queue ps)
        ∙ sym (append_assoc (accepted w.1) (map stamp s.queue) (map stamp ps)) in
      record {
        ordered = rw grown (
            Ordered-append waiting (map stamp ps) h.ordered (Ordered-Apart ps pl.apart)
              (all-after t s.last waiting ps h.within pl.after fresh));
        within = rw grown (
            All-append (Within t' s.last) waiting (map stamp ps)
              (All-mono (Within t s.last) (Within t' s.last) waiting
                (λ q k. Within-later t t' s.last q later k) h.within)
              bounds);
        low =
            All-append (λ p. (v : ℕ) → get p.asset s.last ≡ some v → v ≤ p.ts) s.queue ps h.low
              (low-planned s.last ps pl.after);
      }

  run_moments-Held :
      {W : Type 0} (chain : Chain W) (oracle : String) (assets : List String)
      (ms : List (Moment Price)) (t : ℕ) (s : Pusher) (w : W × Log)
      → Distinct assets
      → Timed t ms
      → Held t s w
      → Ordered
          (accepted (run_moments is_valid to_fixed18 (recording chain) oracle assets ms s w).1.1)
  unfolding run_moments
  run_moments-Held chain oracle assets [] t s w d m h =
      Ordered-left (accepted w.1) (map stamp s.queue) h.ordered
  run_moments-Held chain oracle assets (planned i ∷ ms) t s w d m h =
      run_moments-Held chain oracle assets ms m.0
        (record s { queue = s.queue ++ plan is_valid to_fixed18 i.clock i.prices s.last assets }) w
        d m.2 (plan-Held i assets t m.0 s w m.1 d h)
  run_moments-Held chain oracle assets (settled ∷ ms) t s w d m h =
      run_moments-Held chain oracle assets ms t (settle (recording chain) oracle s.queue s.last w).0
        (settle (recording chain) oracle s.queue s.last w).1 d m
        (settle-Held chain oracle t s.queue s.last w h)

  -- However the ticks of the worker overlap, that is, in any interleaving of ticks that plan their pushes
  -- and pushes of the queue that are made, and whatever the chain answers: if no asset is listed twice and
  -- each tick reads the clock after the ticks before it, no push of an asset that the chain accepts has an
  -- earlier timestamp than one accepted before it.
  pub run_moments-Ordered :
      {W : Type 0} (chain : Chain W) (oracle : String) (assets : List String)
      (ms : List (Moment Price)) (t : ℕ) (last : Stamps) (w : W)
      → Distinct assets
      → Timed t ms
      → Ordered (
          accepted
            (run_moments is_valid to_fixed18
              (recording chain)
              oracle
              assets
              ms
              (record { last = last; queue = [] })
              (w, [])).1.1)
  run_moments-Ordered chain oracle assets ms t last w d m =
      run_moments-Held chain oracle assets ms t (record { last = last; queue = [] }) (w, []) d m
        (record { ordered = tt; within = tt; low = tt })
