-- ===== src/Keeper/Worker/Tests.antt =====
-- A life of a worker: start, a tick that times out, the next tick beside it, stop.
use stellax.Base.{◌⊎◌, ◌≤◌, ◌≡◌, refl}
use stellax.Keeper.Worker.{Worker, new, start, run, started, tick_timed_out, failed}
use stellax.Keeper.Worker.Reach.{Reach, begin, next, call_start, on_start_done, Reach-one_at_a_time}

abbrev ticking : Worker
ticking = started 5 (start 1000 new).0

ticking-Reach : Reach ticking
ticking-Reach = next (next begin (call_start new 1000)) (on_start_done (start 1000 new).0 5)

overlapping : (run 9 (tick_timed_out "tick timeout (2000ms)" ticking)).executing ≡ 2
unfolding run tick_timed_out failed started start new
overlapping = refl

Reach-one_at_a_time_example :
    (ticking.executing ≤ 1)
    × ((run 9 ticking).executing ≤ 1)
    × ((ticking.executing ≡ 0) ⊎ (run 9 ticking ≡ ticking))
unfolding started start run new
Reach-one_at_a_time_example = Reach-one_at_a_time 9 ticking-Reach refl
