-- ===== src/Backpressure.antt =====
-- Backpressure (meritmolt/backpressure.py): the semaphores of ConcurrencyGuard as the requests take
-- and return them, and the middleware's answers.
pub mod Permits
pub mod Conservation
pub mod Bounds
pub mod Middleware
use meritmolt.Prelude.{
  ℕ, suc, ◌+◌, ◌-◌, Bool, true, false, ◌&&◌, Option, none, some, List, [], ◌∷◌, ◌++◌, get_at,
  set_at, ltb, if◌then◌else◌,
}
use meritmolt.Config.{Settings}
use meritmolt.RateLimit.Routes.{RouteGroup, auth_login, auth_refresh, writes, reads, exempt}

-- Where a request stands: in the two awaits of try_acquire, in the application, or over. `lost` is
-- a request that was cancelled in the second await: it is over too, and nobody releases its permit
-- of the global semaphore.
pub data Phase : Type 0 where
  waiting_global waiting_group inside over lost : Phase

pub data Task : Type 0 where
  task : RouteGroup → Phase → Task

pub record Guard : Type 0 where
  pub global_free : ℕ
  pub group_free : RouteGroup → ℕ
  pub tasks : List Task

unfoldable pub same_group : RouteGroup → RouteGroup → Bool
same_group auth_login auth_login = true
same_group auth_refresh auth_refresh = true
same_group writes writes = true
same_group reads reads = true
same_group exempt exempt = true
same_group _ _ = false

-- The permits of each semaphore; there is none for the exempt group.
unfoldable pub group_max : Settings → RouteGroup → ℕ
group_max settings auth_login = settings.mm_bp_auth_max_concurrent
group_max settings auth_refresh = settings.mm_bp_auth_max_concurrent
group_max settings writes = settings.mm_bp_writes_max_concurrent
group_max settings reads = settings.mm_bp_reads_max_concurrent
group_max settings exempt = 0

unfoldable pub new_guard : Settings → Guard
new_guard settings = record {
  global_free = settings.mm_bp_global_max_concurrent;
  group_free = group_max settings;
  tasks = [];
}

-- What happens to a request that waits or runs: the semaphore that it waits for has a permit for
-- it, its wait of one second is up, its task is cancelled, or the application returns or raises.
pub data Signal : Type 0 where
  granted timed_out cancelled finished : Signal

-- After the global permit: the exempt group needs no other.
abbrev pub after_global : RouteGroup → Phase
after_global exempt = inside
after_global auth_login = waiting_group
after_global auth_refresh = waiting_group
after_global writes = waiting_group
after_global reads = waiting_group

abbrev pub move : ℕ → RouteGroup → Phase → Guard → Guard
move i group phase guard = record guard { tasks = set_at i (task group phase) guard.tasks }

abbrev pub change_group : (ℕ → ℕ) → RouteGroup → (RouteGroup → ℕ) → RouteGroup → ℕ
change_group f group free other = if same_group other group then f (free other) else free other

-- `release`: the group's semaphore, unless the group is exempt, then the global one.
unfoldable pub release : RouteGroup → Guard → Guard
release exempt guard = record guard { global_free = suc guard.global_free }
release group guard = record guard {
  global_free = suc guard.global_free;
  group_free = change_group suc group guard.group_free;
}

-- What a signal does to the task at an index. A signal that its phase does not wait for is ignored.
unfoldable pub advance : Signal → ℕ → RouteGroup → Phase → Guard → Guard
advance granted i group waiting_global guard =
    if ltb 0 guard.global_free
    then move i group (after_global group) (record guard { global_free = guard.global_free - 1 })
    else guard
advance granted i group waiting_group guard =
    if ltb 0 (guard.group_free group)
    then move i group inside
        (record guard { group_free = change_group (λ n. n - 1) group guard.group_free })
    else guard
advance granted i group _ guard = guard
advance timed_out i group waiting_global guard = move i group over guard
advance timed_out i group waiting_group guard =
    move i group over (record guard { global_free = suc guard.global_free })
advance timed_out i group _ guard = guard
advance cancelled i group waiting_global guard = move i group over guard
advance cancelled i group waiting_group guard = move i group lost guard
advance cancelled i group inside guard = move i group over (release group guard)
advance cancelled i group _ guard = guard
advance finished i group inside guard = move i group over (release group guard)
advance finished i group _ guard = guard

pub data Event : Type 0 where
  arrives : RouteGroup → Event
  signal : Signal → ℕ → Event

abbrev pub advance_found : Signal → ℕ → Option Task → Guard → Guard
advance_found s i none guard = guard
advance_found s i (some (task group phase)) guard = advance s i group phase guard

unfoldable pub step : Event → Guard → Guard
step (arrives group) guard = record guard { tasks = guard.tasks ++ task group waiting_global ∷ [] }
step (signal s i) guard = advance_found s i (get_at i guard.tasks) guard

unfoldable pub run_events : List Event → Guard → Guard
run_events [] guard = guard
run_events (e ∷ events) guard = run_events events (step e guard)
