-- ===== src/Backpressure/Bounds.antt =====
-- How many requests ConcurrencyGuard (meritmolt/backpressure.py) lets into the application.
use meritmolt.Prelude.{◌+◌, ◌≤◌, Bool, true, false, List, [], ◌∷◌, count_if, arith}
use meritmolt.Config.{Settings}
use meritmolt.Backpressure.{
  waiting_global, waiting_group, inside, over, lost, Task, task, new_guard, Event, run_events,
}
use meritmolt.Backpressure.Permits.{has_global}
use meritmolt.Backpressure.Conservation.{permits-Conserved}

abbrev pub is_inside : Task → Bool
is_inside (task group inside) = true
is_inside (task group waiting_global) = false
is_inside (task group waiting_group) = false
is_inside (task group over) = false
is_inside (task group lost) = false

abbrev pub is_lost : Task → Bool
is_lost (task group lost) = true
is_lost (task group waiting_global) = false
is_lost (task group waiting_group) = false
is_lost (task group over) = false
is_lost (task group inside) = false

inside_and_lost :
    (tasks : List Task)
    → count_if is_inside tasks + count_if is_lost tasks ≤ count_if has_global tasks
inside_and_lost [] = omega arith
inside_and_lost (task group waiting_global ∷ tasks) = omega (arith, inside_and_lost tasks)
inside_and_lost (task group waiting_group ∷ tasks) = omega (arith, inside_and_lost tasks)
inside_and_lost (task group inside ∷ tasks) = omega (arith, inside_and_lost tasks)
inside_and_lost (task group over ∷ tasks) = omega (arith, inside_and_lost tasks)
inside_and_lost (task group lost ∷ tasks) = omega (arith, inside_and_lost tasks)

-- In every history, the requests in the application are at most the global limit, less one for each
-- request that was cancelled in the wait for its group's permit.
pub inside_bounded :
    (settings : Settings) (events : List Event)
    → count_if is_inside (run_events events (new_guard settings)).tasks
        + count_if is_lost (run_events events (new_guard settings)).tasks
      ≤ settings.mm_bp_global_max_concurrent
inside_bounded settings events = omega (
  arith,
  (permits-Conserved settings events).global,
  inside_and_lost (run_events events (new_guard settings)).tasks,
)
