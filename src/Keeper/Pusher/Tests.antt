-- ===== src/Keeper/Pusher/Tests.antt =====
-- The pusher on small inputs.
use stellax.Base.{◌≡◌, refl, true, false, none, [], ◌∷◌}
use stellax.Indexer.Decode.Values.{codes}
use stellax.Keeper.Pusher.{
  pushed, refused, Round, answered, is_unchanged, tick, next_success, run_ticks,
}

abbrev skipped : Round
skipped = record {
  fetched = true;
  answer = refused (codes "err #11");
  asked = 10;
  tested = 10;
  ended = 20;
}

abbrev late : Round
late = record { fetched = true; answer = pushed; asked = 99; tested = 99; ended = 100 }

abbrev lost : Round
lost = record { fetched = false; answer = pushed; asked = 500; tested = 500; ended = 501 }

late_push_alerts : run_ticks 5 none (skipped ∷ late ∷ []) ≡ false ∷ true ∷ []
unfolding run_ticks tick next_success answered is_unchanged
late_push_alerts = refl
