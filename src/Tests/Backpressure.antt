-- ===== src/Tests/Backpressure.antt =====
-- The concurrency guard on concrete events (meritmolt/backpressure.py).
use meritmolt.Prelude.{◌+◌, ◌≡◌, ◌≤◌, refl, List, [], ◌∷◌, count_if}
use meritmolt.RateLimit.Routes.{writes}
use meritmolt.Backpressure.{
  new_guard, group_max, granted, cancelled, finished, Event, arrives, signal, run_events, step,
  advance, release, same_group,
}
use meritmolt.Backpressure.Permits.{Conserved}
use meritmolt.Backpressure.Conservation.{permits-Conserved}
use meritmolt.Backpressure.Bounds.{inside_bounded, is_inside, is_lost}
use meritmolt.Tests.Fixtures.{some_settings}

-- Two writes: the first is admitted, the second waits for the group's only permit and is cancelled.
abbrev cancelled_wait : List Event
cancelled_wait =
    arrives writes
    ∷ arrives writes
    ∷ signal granted 0
    ∷ signal granted 0
    ∷ signal granted 1
    ∷ signal cancelled 1
    ∷ signal finished 0
    ∷ []

-- Both requests are over, and one of the three global permits is gone.
permit_lost : (run_events cancelled_wait (new_guard some_settings)).global_free ≡ 2
unfolding run_events step advance release new_guard group_max same_group
permit_lost = refl

permits-Conserved_example :
    Conserved some_settings (run_events cancelled_wait (new_guard some_settings))
permits-Conserved_example = permits-Conserved some_settings cancelled_wait

inside_bounded_example :
    count_if is_inside (run_events cancelled_wait (new_guard some_settings)).tasks
      + count_if is_lost (run_events cancelled_wait (new_guard some_settings)).tasks
    ≤ 3
inside_bounded_example = inside_bounded some_settings cancelled_wait
