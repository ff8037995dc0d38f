-- ===== src/Keeper/NavPusher/Alerts.antt =====
-- The counters of a feed and its alerts.
use native.Mathlib.Nat.{zero-add}
use stellax.Base.{
  ℕ, ◌+◌, ◌*◌, ◌<◌, ◌≤◌, ◌≡◌, ◌≢◌, refl, subst, List, [], ◌∷◌, ltb, ◌==◌, if◌then◌else◌, arith,
  length, Bool-cases, Option-cases, inl, inr, ◌⊎◌,
}
use stellax.Keeper.NavPusher.{
  RwaPriceFeedMetrics, new, Meets, missed, should_push, alerts, tick_feed, run_feed,
}

abbrev pub ticks_of : RwaPriceFeedMetrics → ℕ
ticks_of m = m.total_successes + m.total_failures + m.total_skipped_no_change

module _ (min_deviation_bps force_push_ms threshold : ℕ) where
  -- How the state of a feed goes with the alerts sent so far: each alert has its own `threshold` failures,
  -- and a streak that is long enough has been reported.
  record Accounted (sent : ℕ) (m : RwaPriceFeedMetrics) : Type 0 where
    pub short_streak :
        (m.consecutive_failures < threshold)
        → threshold * sent + m.consecutive_failures ≤ m.total_failures
    pub long_streak :
        (threshold ≤ m.consecutive_failures)
        → threshold * sent + m.consecutive_failures ≤ m.total_failures + threshold
    pub reported : threshold ≤ m.consecutive_failures → 0 < sent

  -- a tick misses, or ends the streak
  tick_feed-cases :
      (i : Meets) (m : RwaPriceFeedMetrics)
      → let m' = tick_feed min_deviation_bps force_push_ms i m in
        (m' ≡ missed m)
        ⊎ ((m'.consecutive_failures ≡ 0)
            × (m'.total_failures ≡ m.total_failures)
            × (ticks_of m' ≡ ticks_of m + 1))
  unfolding tick_feed
  tick_feed-cases i m = elim (Option-cases i.fetched) [
    | inl e ↦ inl (rw e refl)
    | inr (p, e) ↦ elim (Bool-cases (should_push min_deviation_bps force_push_ms m i.asked p)) [
      | inl s ↦ elim (Bool-cases i.accepted) [
        | inl a ↦ inr (rw (e, s, a) (refl, refl, omega arith))
        | inr a ↦ inl (rw (e, s, a) refl)
      ]
      | inr s ↦ inr (rw (e, s) (refl, refl, omega arith))
    ]
  ]

  abbrev sent_by : RwaPriceFeedMetrics → RwaPriceFeedMetrics → ℕ
  sent_by m m' = if alerts threshold m m' then 1 else 0

  missed-sent :
      (m : RwaPriceFeedMetrics)
      → ((m.consecutive_failures + 1 ≡ threshold) × (sent_by m (missed m) ≡ 1))
        ⊎ ((m.consecutive_failures + 1 ≢ threshold) × (sent_by m (missed m) ≡ 0))
  missed-sent m = elim (Bool-cases (m.consecutive_failures + 1 == threshold)) [
    | inl e ↦ inl (ground arith, ground arith)
    | inr e ↦ inr (ground arith, ground arith)
  ]

  missed-Accounted :
      (m : RwaPriceFeedMetrics) (sent : ℕ)
      → 0 < threshold
      → Accounted sent m
      → Accounted (sent_by m (missed m) + sent) (missed m)
  missed-Accounted m sent pos h = elim (missed-sent m) [
    | inl (e, k) ↦ rw k (record {
      short_streak = λ l. absurd (omega (arith, l, e));
      long_streak = λ l. omega (arith, h.short_streak (omega (arith, e)), e);
      reported = λ l. omega arith;
    })
    | inr (e, k) ↦ rw k (record {
      short_streak = λ l. omega (arith, h.short_streak (omega (arith, l)));
      long_streak = λ l. omega (arith, h.long_streak (omega (arith, l, e)));
      reported = λ l. omega (arith, h.reported (omega (arith, l, e)));
    })
  ]

  ended-Accounted :
      (m m' : RwaPriceFeedMetrics) (sent : ℕ)
      → 0 < threshold
      → Accounted sent m
      → m'.consecutive_failures ≡ 0
      → m'.total_failures ≡ m.total_failures
      → Accounted (sent_by m m' + sent) m'
  ended-Accounted m m' sent pos h z f =
      let none_sent : sent_by m m' ≡ 0 = ground (arith, f) in
      let covered =
        elim (Bool-cases (ltb m.consecutive_failures threshold))
          as (λ x. threshold * sent ≤ m.total_failures) [
            | inl e ↦ omega (arith, h.short_streak (ground (arith, e)))
            | inr e ↦
                let long : threshold ≤ m.consecutive_failures = ground (arith, e) in
                omega (arith, h.long_streak long, long)
          ] in
      rw none_sent (record {
        short_streak = λ l. omega (arith, covered, z, f);
        long_streak = λ l. omega (arith, covered, z, f);
        reported = λ l. absurd (omega (arith, l, z, pos));
      })

  tick_feed-Accounted :
      (i : Meets) (m : RwaPriceFeedMetrics) (sent : ℕ)
      → 0 < threshold
      → Accounted sent m
      → let m' = tick_feed min_deviation_bps force_push_ms i m in
        Accounted (sent_by m m' + sent) m' × (ticks_of m' ≡ ticks_of m + 1)
  tick_feed-Accounted i m sent pos h = elim (tick_feed-cases i m) [
    | inl e ↦ rw e (missed-Accounted m sent pos h, omega arith)
    | inr (z, f, t) ↦
        (ended-Accounted m (tick_feed min_deviation_bps force_push_ms i m) sent pos h z f, t)
  ]

  run_feed-from :
      (is : List Meets) (m : RwaPriceFeedMetrics) (sent : ℕ)
      → 0 < threshold
      → Accounted sent m
      → let r = run_feed min_deviation_bps force_push_ms threshold is m in
        Accounted (r.1 + sent) r.0 × (ticks_of r.0 ≡ ticks_of m + length is)
  unfolding run_feed
  run_feed-from [] m sent pos h = (rw (zero-add sent) h, omega arith)
  run_feed-from (i ∷ is) m sent pos h =
      let m' = tick_feed min_deviation_bps force_push_ms i m in
      let (h', t) = tick_feed-Accounted i m sent pos h in
      let (last, n) = run_feed-from is m' (sent_by m m' + sent) pos h' in
      let more = (run_feed min_deviation_bps force_push_ms threshold is m').1 in
      let regroup : more + (sent_by m m' + sent) ≡ sent_by m m' + more + sent = omega arith in
      (
        subst (λ k. Accounted k (run_feed min_deviation_bps force_push_ms threshold is m').0)
            regroup last,
        omega (arith, t, n),
      )

  -- Over any number of ticks of a feed each alert stands for `threshold` failures of its own, a streak of
  -- failures that has reached the threshold has been reported, and every tick is counted once, as a
  -- success, a failure or a skip.
  pub run_feed-accounted :
      (is : List Meets)
      → 0 < threshold
      → let r = run_feed min_deviation_bps force_push_ms threshold is new in
        (threshold * r.1 ≤ r.0.total_failures)
        × ((r.0.consecutive_failures < threshold) ⊎ (0 < r.1))
        × (ticks_of r.0 ≡ length is)
  unfolding new
  run_feed-accounted is pos =
      let r = run_feed min_deviation_bps force_push_ms threshold is new in
      let start : Accounted 0 new = record {
        short_streak = λ l. omega arith;
        long_streak = λ l. omega arith;
        reported = λ l. absurd (omega (arith, l, pos));
      } in
      let (h, t) = run_feed-from is new 0 pos start in
      elim (Bool-cases (ltb r.0.consecutive_failures threshold)) [
        | inl e ↦
            let short : r.0.consecutive_failures < threshold = ground (arith, e) in
            (omega (arith, h.short_streak short), inl short, omega (arith, t))
        | inr e ↦
            let long : threshold ≤ r.0.consecutive_failures = ground (arith, e) in
            (
              omega (arith, h.long_streak long, long),
              inr (omega (arith, h.reported long)),
              omega (arith, t),
            )
      ]
