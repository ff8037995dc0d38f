-- ===== src/Keeper/NavPusher/Tests.antt =====
-- The pusher of asset prices on a few ticks.
use stellax.Base.{◌≡◌, refl, true, none, some, List, [], ◌∷◌}
use stellax.Keeper.NavPusher.{new, Meets, should_push, tick_feed, run_feed}

abbrev fails : Meets
fails = record { fetched = none; accepted = true; asked = 5; pushed_at = 6 }

abbrev works : Meets
works = record { fetched = some 1000; accepted = true; asked = 10; pushed_at = 12 }

abbrev repeats : Meets
repeats = record { fetched = some 1001; accepted = true; asked = 20; pushed_at = 22 }

abbrev ticks : List Meets
ticks = fails ∷ fails ∷ works ∷ repeats ∷ fails ∷ []

one_alert : (run_feed 50 100 2 ticks new).1 ≡ 1
unfolding run_feed tick_feed should_push new
one_alert = refl
