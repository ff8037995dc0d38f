-- ===== src/Keeper/NavPusher/Tracks.antt =====
-- What the metrics of a feed say after a tick.
use stellax.Base.{
  ℕ, ◌-◌, ◌*◌, ◌<◌, ◌≡◌, ◌⊎◌, inl, inr, refl, sym, ap, ◌∙◌, false, Option, none, some, arith,
  Bool-cases,
}
use stellax.Keeper.Nav.{distance}
use stellax.Keeper.NavPusher.{RwaPriceFeedMetrics, Meets, missed, push_due, should_push, tick_feed}

module _ (min_deviation_bps force_push_ms : ℕ) where
  -- the last pushed price is near a price, and pushed recently
  abbrev pub Tracks : (price asked pushed_at : ℕ) → RwaPriceFeedMetrics → Type 0
  Tracks price asked pushed_at m =
      (last : ℕ) × (ts : ℕ) × (m.last_pushed_price_usd ≡ some last)
      × (m.last_push_ts ≡ some ts)
      × ((last ≡ price) ⊎ (distance price last * 10_000 < min_deviation_bps * last))
      × ((ts ≡ pushed_at) ⊎ (asked - ts < force_push_ms))

  kept-Tracks :
      (last_ts last_price : Option ℕ) (price asked pushed_at : ℕ)
      → push_due min_deviation_bps force_push_ms last_ts last_price asked price ≡ false
      → (last : ℕ) × (ts : ℕ) × (last_price ≡ some last)
        × (last_ts ≡ some ts)
        × ((last ≡ price) ⊎ (distance price last * 10_000 < min_deviation_bps * last))
        × ((ts ≡ pushed_at) ⊎ (asked - ts < force_push_ms))
  kept-Tracks none last_price price asked pushed_at h = cc
  kept-Tracks (some ts) none price asked pushed_at h = cc
  kept-Tracks (some ts) (some last) price asked pushed_at h =
      (last, ts, refl, refl, ground arith, inr (ground arith))

  missed_streak : (m : RwaPriceFeedMetrics) → (missed m).consecutive_failures ≡ 0 → ⊥
  missed_streak m h = omega (arith, h)

  -- After a tick that does not miss, the last price in the metrics is the one just fetched or nearer to it than the
  -- deviation that forces a push, and it was pushed in this tick or less than the forced interval ago.
  pub tick_feed-Tracks :
      (i : Meets) (m : RwaPriceFeedMetrics) (price : ℕ)
      → i.fetched ≡ some price
      → (tick_feed min_deviation_bps force_push_ms i m).consecutive_failures ≡ 0
      → Tracks price i.asked i.pushed_at (tick_feed min_deviation_bps force_push_ms i m)
  unfolding tick_feed should_push
  tick_feed-Tracks i m price f h =
      elim (Bool-cases (should_push min_deviation_bps force_push_ms m i.asked price)) [
        | inl s ↦ elim (Bool-cases i.accepted) [
          | inl a ↦ rw (f, s, a) (price, i.pushed_at, refl, refl, inl refl, inl refl)
          | inr a ↦
              let e : tick_feed min_deviation_bps force_push_ms i m ≡ missed m =
                rw (f, s, a) refl in
              absurd (
                missed_streak m
                  (ap (λ (r : RwaPriceFeedMetrics). r.consecutive_failures) (sym e) ∙ h))
        ]
        | inr s ↦
            rw (f, s)
              (kept-Tracks m.last_push_ts m.last_pushed_price_usd price i.asked i.pushed_at s)
      ]
