-- ===== src/Keeper/NavPusher.antt =====
-- The pusher of real-world asset prices (packages/keeper/src/workers/rwa-nav-pusher.ts), for one feed:
-- the feeds share no state. A price is the sample's `price18`, a positive bigint; the source compares the
-- doubles that `sample18ToUsd` makes of two of them, here the comparison is exact. The label `lastSource`
-- is left out.
pub mod Tracks
pub mod Alerts
mod Tests
use stellax.Base.{
  ℕ, ◌+◌, ◌-◌, ◌*◌, ◌<◌, ◌≡◌, Bool, true, false, Option, none, some, List, [], ◌∷◌, ltb, leb, ◌==◌,
  not, if◌then◌else◌,
}
use stellax.Keeper.Nav.{distance}

pub record RwaPriceFeedMetrics : Type 0 where
  pub last_push_ts : Option ℕ
  pub last_pushed_price_usd : Option ℕ
  pub consecutive_failures : ℕ
  pub total_successes : ℕ
  pub total_failures : ℕ
  pub total_skipped_no_change : ℕ

unfoldable pub new : RwaPriceFeedMetrics
new = record {
  last_push_ts = none;
  last_pushed_price_usd = none;
  consecutive_failures = 0;
  total_successes = 0;
  total_failures = 0;
  total_skipped_no_change = 0;
}

-- `deviationBps >= minDeviationBps`; against a price of 0 a change is infinite and no change is NaN
abbrev pub deviates : (min_bps last next : ℕ) → Bool
deviates min_bps last next =
    if last == 0 then not (next == 0) else leb (min_bps * last) (distance next last * 10_000)

-- What the tick meets for the feed: the price that `fetch` resolves to, whether the push would resolve,
-- and the clock in `shouldPush` and after the push.
pub record Meets : Type 0 where
  pub fetched : Option ℕ
  pub accepted : Bool
  pub asked : ℕ
  pub pushed_at : ℕ

-- the `catch` block
abbrev pub missed : RwaPriceFeedMetrics → RwaPriceFeedMetrics
missed m = record m {
  consecutive_failures = m.consecutive_failures + 1;
  total_failures = m.total_failures + 1;
}

abbrev pub pushed : ℕ → ℕ → RwaPriceFeedMetrics → RwaPriceFeedMetrics
pushed price now m = record m {
  last_push_ts = some now;
  last_pushed_price_usd = some price;
  consecutive_failures = 0;
  total_successes = m.total_successes + 1;
}

abbrev pub skipped : RwaPriceFeedMetrics → RwaPriceFeedMetrics
skipped m = record m {
  consecutive_failures = 0;
  total_skipped_no_change = m.total_skipped_no_change + 1;
}

-- whether a tick sends an alert
abbrev pub alerts : ℕ → RwaPriceFeedMetrics → RwaPriceFeedMetrics → Bool
alerts threshold before after =
    if ltb before.total_failures after.total_failures
    then after.consecutive_failures == threshold
    else false

module _ (min_deviation_bps force_push_ms : ℕ) where
  abbrev pub push_due : (last_ts last_price : Option ℕ) → (now price : ℕ) → Bool
  push_due none last_price now price = true
  push_due (some ts) none now price = true
  push_due (some ts) (some last) now price =
      if leb force_push_ms (now - ts) then true else deviates min_deviation_bps last price

  unfoldable pub should_push : RwaPriceFeedMetrics → (now price : ℕ) → Bool
  should_push m now price = push_due m.last_push_ts m.last_pushed_price_usd now price

  -- the body of the loop of `tick`
  unfoldable pub tick_feed : Meets → RwaPriceFeedMetrics → RwaPriceFeedMetrics
  unfolding should_push
  tick_feed i m = elim i.fetched [
    | none ↦ missed m
    | some price ↦
        if should_push m i.asked price
        then if i.accepted then pushed price i.pushed_at m else missed m
        else skipped m
  ]

  -- any number of ticks, and how many alerts they send
  unfoldable pub run_feed : ℕ → List Meets → RwaPriceFeedMetrics → RwaPriceFeedMetrics × ℕ
  unfolding tick_feed
  run_feed threshold [] m = (m, 0)
  run_feed threshold (i ∷ is) m =
      let m' = tick_feed i m in
      let (last, sent) = run_feed threshold is m' in
      (last, (if alerts threshold m m' then 1 else 0) + sent)
