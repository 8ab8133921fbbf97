-- ===== src/Backpressure/Permits.antt =====
-- Which requests hold permits of ConcurrencyGuard (meritmolt/backpressure.py), and what releases and grants make
-- of the counts.
use meritmolt.Prelude.{
  ℕ, suc, ◌+◌, ◌-◌, ◌⊎◌, ◌≡◌, refl, Bool, true, false, not, ◌&&◌, some, get_at, set_at, ltb,
  count_if, count_if-set_at, one_if, Bool-cases, inl, inr, arith,
}
use meritmolt.Config.{Settings}
use meritmolt.RateLimit.Routes.{RouteGroup, auth_login, auth_refresh, writes, reads, exempt}
use meritmolt.Backpressure.{
  Phase, waiting_global, waiting_group, inside, over, lost, Task, task, Guard, same_group,
  group_max, release, move, change_group, after_global,
}

-- A task that has a permit of the global semaphore, or took one away.
abbrev pub has_global : Task → Bool
has_global (task group waiting_global) = false
has_global (task group waiting_group) = true
has_global (task group inside) = true
has_global (task group over) = false
has_global (task group lost) = true

-- A task that has a permit of the group's semaphore.
abbrev pub has_group : RouteGroup → Task → Bool
has_group g (task group inside) = same_group g group && not (same_group g exempt)
has_group g (task group waiting_global) = false
has_group g (task group waiting_group) = false
has_group g (task group over) = false
has_group g (task group lost) = false

-- The permits that are free and those that tasks have are all that there are.
pub record Conserved (settings : Settings) (guard : Guard) : Type 0 where
  pub global :
      guard.global_free + count_if has_global guard.tasks ≡ settings.mm_bp_global_max_concurrent
  pub group :
      (g : RouteGroup)
      → guard.group_free g + count_if (has_group g) guard.tasks ≡ group_max settings g

pub same_cases :
    (g group : RouteGroup)
    → ((g ≡ group) × (same_group g group ≡ true)) ⊎ (same_group g group ≡ false)
unfolding same_group
same_cases auth_login auth_login = inl (refl, refl)
same_cases auth_login auth_refresh = inr refl
same_cases auth_login writes = inr refl
same_cases auth_login reads = inr refl
same_cases auth_login exempt = inr refl
same_cases auth_refresh auth_login = inr refl
same_cases auth_refresh auth_refresh = inl (refl, refl)
same_cases auth_refresh writes = inr refl
same_cases auth_refresh reads = inr refl
same_cases auth_refresh exempt = inr refl
same_cases writes auth_login = inr refl
same_cases writes auth_refresh = inr refl
same_cases writes writes = inl (refl, refl)
same_cases writes reads = inr refl
same_cases writes exempt = inr refl
same_cases reads auth_login = inr refl
same_cases reads auth_refresh = inr refl
same_cases reads writes = inr refl
same_cases reads reads = inl (refl, refl)
same_cases reads exempt = inr refl
same_cases exempt auth_login = inr refl
same_cases exempt auth_refresh = inr refl
same_cases exempt writes = inr refl
same_cases exempt reads = inr refl
same_cases exempt exempt = inl (refl, refl)

-- What release gives back to a group's semaphore.
pub release_group :
    (group g : RouteGroup) (guard : Guard)
    → (release group guard).group_free g
      ≡ guard.group_free g + one_if (has_group g (task group inside))
unfolding release same_group
release_group auth_login auth_login guard = omega arith
release_group auth_login auth_refresh guard = omega arith
release_group auth_login writes guard = omega arith
release_group auth_login reads guard = omega arith
release_group auth_login exempt guard = omega arith
release_group auth_refresh auth_login guard = omega arith
release_group auth_refresh auth_refresh guard = omega arith
release_group auth_refresh writes guard = omega arith
release_group auth_refresh reads guard = omega arith
release_group auth_refresh exempt guard = omega arith
release_group writes auth_login guard = omega arith
release_group writes auth_refresh guard = omega arith
release_group writes writes guard = omega arith
release_group writes reads guard = omega arith
release_group writes exempt guard = omega arith
release_group reads auth_login guard = omega arith
release_group reads auth_refresh guard = omega arith
release_group reads writes guard = omega arith
release_group reads reads guard = omega arith
release_group reads exempt guard = omega arith
release_group exempt auth_login guard = omega arith
release_group exempt auth_refresh guard = omega arith
release_group exempt writes guard = omega arith
release_group exempt reads guard = omega arith
release_group exempt exempt guard = omega arith

pub release_global :
    (group : RouteGroup) (guard : Guard)
    → ((release group guard).global_free ≡ suc guard.global_free)
      × ((release group guard).tasks ≡ guard.tasks)
unfolding release
release_global auth_login guard = (refl, refl)
release_global auth_refresh guard = (refl, refl)
release_global writes guard = (refl, refl)
release_global reads guard = (refl, refl)
release_global exempt guard = (refl, refl)

-- The task at an index goes from one phase to another, with permits that go in or out to match.
pub Conserved-move :
    (settings : Settings) (i : ℕ) (group : RouteGroup) (from to : Phase) (guard after : Guard)
    → get_at i guard.tasks ≡ some (task group from)
    → after.tasks ≡ set_at i (task group to) guard.tasks
    → after.global_free + one_if (has_global (task group to))
      ≡ guard.global_free + one_if (has_global (task group from))
    → ((g : RouteGroup)
        → after.group_free g + one_if (has_group g (task group to))
          ≡ guard.group_free g + one_if (has_group g (task group from)))
    → Conserved settings guard
    → Conserved settings after
Conserved-move settings i group from to guard after at tasks global by_group c = record {
  global = rw tasks (
      omega
        (arith, c.global, global, count_if-set_at has_global i _ (task group to) guard.tasks at));
  group = λ g. rw tasks (
      omega (
        arith,
        c.group g,
        by_group g,
        count_if-set_at (has_group g) i _ (task group to) guard.tasks at,
      ));
}

-- What the group's semaphore gives to a task that waits for it.
pub taken_group :
    (settings : Settings) (group g : RouteGroup) (guard : Guard)
    → Conserved settings guard
    → ltb 0 (guard.group_free group) ≡ true
    → change_group (λ n. n - 1) group guard.group_free g + one_if (has_group g (task group inside))
      ≡ guard.group_free g
unfolding group_max
taken_group settings group g guard c free = elim (same_cases g group) [
  | inr other ↦ rw other (omega arith)
  | inl (same, t) ↦ elim (same_cases g exempt) [
    | inr e ↦ rw (t, e, same) (ground (arith, free))
    | inl (x, e) ↦ absurd (
        let none_free = c.group exempt in
        let some_free : ltb 0 (guard.group_free exempt) ≡ true = rw (← x, same) free in
        ground (arith, none_free, some_free))
  ]
]

pub no_exempt : (g : RouteGroup) → one_if (has_group g (task exempt inside)) ≡ 0
no_exempt g = elim (Bool-cases (same_group g exempt)) [ inl t ↦ rw t refl | inr f ↦ rw f refl ]

pub granted_global :
    (settings : Settings) (i : ℕ) (group : RouteGroup) (guard : Guard)
    → get_at i guard.tasks ≡ some (task group waiting_global)
    → ltb 0 guard.global_free ≡ true
    → Conserved settings guard
    → Conserved settings
        (move i group (after_global group) (record guard { global_free = guard.global_free - 1 }))
granted_global settings i exempt guard at free c =
    Conserved-move settings i exempt waiting_global inside guard _ at refl (ground (arith, free))
      (λ g. omega (arith, no_exempt g)) c
granted_global settings i auth_login guard at free c =
    Conserved-move settings i auth_login waiting_global waiting_group guard _ at refl
      (ground (arith, free)) (λ g. omega arith) c
granted_global settings i auth_refresh guard at free c =
    Conserved-move settings i auth_refresh waiting_global waiting_group guard _ at refl
      (ground (arith, free)) (λ g. omega arith) c
granted_global settings i writes guard at free c =
    Conserved-move settings i writes waiting_global waiting_group guard _ at refl
      (ground (arith, free)) (λ g. omega arith) c
granted_global settings i reads guard at free c =
    Conserved-move settings i reads waiting_global waiting_group guard _ at refl
      (ground (arith, free)) (λ g. omega arith) c

pub released :
    (settings : Settings) (i : ℕ) (group : RouteGroup) (guard : Guard)
    → get_at i guard.tasks ≡ some (task group inside)
    → Conserved settings guard
    → Conserved settings (move i group over (release group guard))
released settings i group guard at c =
    let (global, tasks) = release_global group guard in
    Conserved-move settings i group inside over guard _ at (rw tasks refl) (rw global (omega arith))
      (λ g. omega (arith, release_group group g guard)) c
