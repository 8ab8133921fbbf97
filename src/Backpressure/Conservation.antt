-- ===== src/Backpressure/Conservation.antt =====
-- The permits of ConcurrencyGuard (meritmolt/backpressure.py): none is made, and which are lost.
use meritmolt.Prelude.{
  ℕ, ◌≡◌, refl, some, List, [], ◌∷◌, get_at, ltb, count_if-append, Bool-cases, Option-cases, inl,
  inr, arith,
}
use meritmolt.Config.{Settings}
use meritmolt.RateLimit.Routes.{RouteGroup}
use meritmolt.Backpressure.{
  Phase, waiting_global, waiting_group, inside, over, lost, Task, task, Guard, new_guard, Signal,
  granted, timed_out, cancelled, finished, release, advance, Event, arrives, signal, advance_found,
  step, run_events,
}
use meritmolt.Backpressure.Permits.{
  has_global, has_group, Conserved, taken_group, granted_global, released, Conserved-move,
}

module _ (settings : Settings) where
  advance-Conserved :
      (s : Signal) (i : ℕ) (group : RouteGroup) (phase : Phase) (guard : Guard)
      → get_at i guard.tasks ≡ some (task group phase)
      → Conserved settings guard
      → Conserved settings (advance s i group phase guard)
  unfolding advance release
  advance-Conserved granted i group waiting_global guard at c =
      elim (Bool-cases (ltb 0 guard.global_free)) [
        | inl t ↦ rw t (granted_global settings i group guard at t c)
        | inr f ↦ rw f c
      ]
  advance-Conserved granted i group waiting_group guard at c =
      elim (Bool-cases (ltb 0 (guard.group_free group))) [
        | inl t ↦ rw t (
            Conserved-move settings i group waiting_group inside guard _ at refl (omega arith)
              (λ g. omega (arith, taken_group settings group g guard c t)) c)
        | inr f ↦ rw f c
      ]
  advance-Conserved granted i group inside guard at c = c
  advance-Conserved granted i group over guard at c = c
  advance-Conserved granted i group lost guard at c = c
  advance-Conserved timed_out i group waiting_global guard at c =
      Conserved-move settings i group waiting_global over guard _ at refl (omega arith)
        (λ g. omega arith) c
  advance-Conserved timed_out i group waiting_group guard at c =
      Conserved-move settings i group waiting_group over guard _ at refl (omega arith)
        (λ g. omega arith) c
  advance-Conserved timed_out i group inside guard at c = c
  advance-Conserved timed_out i group over guard at c = c
  advance-Conserved timed_out i group lost guard at c = c
  advance-Conserved cancelled i group waiting_global guard at c =
      Conserved-move settings i group waiting_global over guard _ at refl (omega arith)
        (λ g. omega arith) c
  advance-Conserved cancelled i group waiting_group guard at c =
      Conserved-move settings i group waiting_group lost guard _ at refl (omega arith)
        (λ g. omega arith) c
  advance-Conserved cancelled i group inside guard at c = released settings i group guard at c
  advance-Conserved cancelled i group over guard at c = c
  advance-Conserved cancelled i group lost guard at c = c
  advance-Conserved finished i group inside guard at c = released settings i group guard at c
  advance-Conserved finished i group waiting_global guard at c = c
  advance-Conserved finished i group waiting_group guard at c = c
  advance-Conserved finished i group over guard at c = c
  advance-Conserved finished i group lost guard at c = c

  step-Conserved :
      (e : Event) (guard : Guard) → Conserved settings guard → Conserved settings (step e guard)
  unfolding step
  step-Conserved (arrives group) guard c = record {
    global =
        omega (
          arith,
          c.global,
          count_if-append has_global guard.tasks (task group waiting_global ∷ []),
        );
    group = λ g. omega (
      arith,
      c.group g,
      count_if-append (has_group g) guard.tasks (task group waiting_global ∷ []),
    );
  }
  step-Conserved (signal s i) guard c = elim (Option-cases (get_at i guard.tasks)) [
    | inl e ↦ rw e c
    | inr (t, e) ↦ rw e (found t e)
  ]
    where
      found :
          (t : Task)
          → get_at i guard.tasks ≡ some t
          → Conserved settings (advance_found s i (some t) guard)
      found (task group phase) e = advance-Conserved s i group phase guard e c

  run_events-Conserved :
      (events : List Event) (guard : Guard)
      → Conserved settings guard
      → Conserved settings (run_events events guard)
  unfolding run_events
  run_events-Conserved [] guard c = c
  run_events-Conserved (e ∷ events) guard c =
      run_events-Conserved events (step e guard) (step-Conserved e guard c)

-- In every history of arrivals, grants, timeouts, cancellations and ends of requests, the permits of
-- each semaphore that are free and those that requests hold, or took away by being cancelled in the
-- wait for the group's permit, add up to its limit.
pub permits-Conserved :
    (settings : Settings) (events : List Event)
    → Conserved settings (run_events events (new_guard settings))
permits-Conserved settings events =
    run_events-Conserved settings events (new_guard settings)
      (unfold new_guard in record { global = omega arith; group = λ g. omega arith })
