-- ===== src/Queue/Claim.antt =====
-- What the worker's SELECT chooses (textlake/queue/worker.py).
use meritmolt.Prelude.{
  ℕ, ◌≤◌, ◌<◌, ◌⊎◌, ltb, leb, and_parts, ltb→lt, ◌≡◌, refl, subst, inl, inr, Bool, true, false,
  ◌&&◌, not, Option, none, some, [], ◌∷◌, Among, All, All-map, Bool-cases, arith,
}
use meritmolt.Queue.{
  CrawlTask, Queue, is_claimable, is_due, is_unlocked, goes_before, better, first_of, select_task,
}

goes_before_refl : (a : CrawlTask) → goes_before a a ≡ true
unfolding goes_before
goes_before_refl a = ground arith

goes_before_trans :
    (a b c : CrawlTask) → goes_before a b ≡ true → goes_before b c ≡ true → goes_before a c ≡ true
unfolding goes_before
goes_before_trans a b c h k = ground arith

goes_before_total : (a b : CrawlTask) → goes_before a b ≡ false → goes_before b a ≡ true
unfolding goes_before
goes_before_total a b h = ground arith

-- What `ORDER BY ... LIMIT 1` promises of its result.
abbrev pub IsFirst : (CrawlTask → Bool) → Queue → Option CrawlTask → Type 0
IsFirst p queue none = All (λ u. p u ≡ false) queue
IsFirst p queue (some task) =
    Among task queue × (p task ≡ true) × All (λ u. p u ≡ true → goes_before task u ≡ true) queue

IsFirst-better :
    (p : CrawlTask → Bool) (task : CrawlTask) (queue : Queue) (o : Option CrawlTask)
    → p task ≡ true
    → IsFirst p queue o
    → IsFirst p (task ∷ queue) (some (better task o))
unfolding better
IsFirst-better p task queue none t h = (
  inl refl,
  t,
  (
    (λ _. goes_before_refl task),
    All-map (λ u. p u ≡ false) (λ u. p u ≡ true → goes_before task u ≡ true) queue
        (λ u f e. absurd (let g : false ≡ true = rw f at e in cc)) h,
  ),
)
IsFirst-better p task queue (some other) t (among, passes, first) =
    elim (Bool-cases (goes_before task other)) [
      | inl b ↦
          subst (λ best. IsFirst p (task ∷ queue) (some best)) (rw b refl)
            (
              inl refl,
              t,
              (
                (λ _. goes_before_refl task),
                All-map (λ u. p u ≡ true → goes_before other u ≡ true)
                    (λ u. p u ≡ true → goes_before task u ≡ true) queue
                    (λ u f e. goes_before_trans task other u b (f e)) first,
              ),
            )
      | inr b ↦
          subst (λ best. IsFirst p (task ∷ queue) (some best)) (rw b refl)
            (inr among, passes, ((λ _. goes_before_total task other b), first))
    ]

first_of-IsFirst : (p : CrawlTask → Bool) (queue : Queue) → IsFirst p queue (first_of p queue)
unfolding first_of
first_of-IsFirst p [] = tt
first_of-IsFirst p (task ∷ queue) = elim (Bool-cases (p task)) [
  | inl t ↦ rw t (IsFirst-better p task queue (first_of p queue) t (first_of-IsFirst p queue))
  | inr f ↦ rw f (skip (first_of p queue) (first_of-IsFirst p queue) f)
]
  where
    skip : (o : Option CrawlTask) → IsFirst p queue o → p task ≡ false → IsFirst p (task ∷ queue) o
    skip none h f = (f, h)
    skip (some x) (among, passes, first) f =
        (inr among, passes, ((λ e. absurd (let g : false ≡ true = rw f at e in cc)), first))

pub select_task-IsFirst :
    (now : ℕ) (held : CrawlTask → Bool) (queue : Queue)
    → IsFirst (λ task. is_claimable now task && not (held task)) queue (select_task now held queue)
unfolding select_task
select_task-IsFirst now held queue =
    first_of-IsFirst (λ task. is_claimable now task && not (held task)) queue

-- A time that is not set, or that has come, or has passed.
abbrev pub HasCome : ℕ → Option ℕ → Type 0
HasCome now none = Unit
HasCome now (some t) = t ≤ now

abbrev pub HasPassed : ℕ → Option ℕ → Type 0
HasPassed now none = Unit
HasPassed now (some t) = t < now

-- The task has attempts left, has waited, and is under no lease and no other transaction's lock.
abbrev pub IsFree : ℕ → (CrawlTask → Bool) → CrawlTask → Type 0
IsFree now held task =
    (task.attempts < task.max_attempts)
    × HasCome now task.not_before
    × HasPassed now task.locked_until
    × (held task ≡ false)

abbrev pub IsAhead : ℕ → Option ℕ → Type 0
IsAhead now none = ⊥
IsAhead now (some t) = now < t

abbrev pub IsRunning : ℕ → Option ℕ → Type 0
IsRunning now none = ⊥
IsRunning now (some t) = now ≤ t

-- The task is out of attempts, must wait, is leased, or is locked.
abbrev pub IsBusy : ℕ → (CrawlTask → Bool) → CrawlTask → Type 0
IsBusy now held task =
    (task.max_attempts ≤ task.attempts)
    ⊎ IsAhead now task.not_before
    ⊎ IsRunning now task.locked_until
    ⊎ (held task ≡ true)

-- A higher priority, or the same and not created later.
abbrev pub Precedes : CrawlTask → CrawlTask → Type 0
Precedes a b =
    (b.priority < a.priority) ⊎ ((a.priority ≡ b.priority) × (a.created_at ≤ b.created_at))

-- The next task of a queue.
abbrev pub IsNext : ℕ → (CrawlTask → Bool) → Queue → Option CrawlTask → Type 0
IsNext now held queue none = All (IsBusy now held) queue
IsNext now held queue (some task) =
    Among task queue × IsFree now held task × All (λ u. IsBusy now held u ⊎ Precedes task u) queue

due_cases : (now : ℕ) (o : Option ℕ) → ((is_due now o ≡ true) × HasCome now o) ⊎ IsAhead now o
due_cases now none = inl (refl, tt)
due_cases now (some t) = elim (Bool-cases (leb t now)) [
  | inl h ↦ inl (h, ground arith)
  | inr f ↦ inr (ground arith)
]

unlocked_cases :
    (now : ℕ) (o : Option ℕ) → ((is_unlocked now o ≡ true) × HasPassed now o) ⊎ IsRunning now o
unlocked_cases now none = inl (refl, tt)
unlocked_cases now (some t) = elim (Bool-cases (ltb t now)) [
  | inl h ↦ inl (h, ground arith)
  | inr f ↦ inr (ground arith)
]

is_due-HasCome : (now : ℕ) (o : Option ℕ) → is_due now o ≡ true → HasCome now o
is_due-HasCome now none h = tt
is_due-HasCome now (some t) h = ground arith

is_unlocked-HasPassed : (now : ℕ) (o : Option ℕ) → is_unlocked now o ≡ true → HasPassed now o
is_unlocked-HasPassed now none h = tt
is_unlocked-HasPassed now (some t) h = ground arith

module _ (now : ℕ) (held : CrawlTask → Bool) (task : CrawlTask) where
  claimable-IsFree : (is_claimable now task && not (held task)) ≡ true → IsFree now held task
  claimable-IsFree h =
      let (c, n) = and_parts (is_claimable now task) (not (held task)) h in
      let (a, l) =
        and_parts (ltb task.attempts task.max_attempts && is_due now task.not_before)
          (is_unlocked now task.locked_until) c in
      let (m, d) = and_parts (ltb task.attempts task.max_attempts) (is_due now task.not_before) a in
      (
        ltb→lt task.attempts task.max_attempts m,
        is_due-HasCome now task.not_before d,
        is_unlocked-HasPassed now task.locked_until l,
        ground arith,
      )

  unclaimable-IsBusy : (is_claimable now task && not (held task)) ≡ false → IsBusy now held task
  unclaimable-IsBusy h = elim (Bool-cases (ltb task.attempts task.max_attempts)) [
    | inr f ↦ inl (ground arith)
    | inl m ↦ elim (due_cases now task.not_before) [
      | inr a ↦ inr (inl a)
      | inl (d, _) ↦ elim (unlocked_cases now task.locked_until) [
        | inr r ↦ inr (inr (inl r))
        | inl (l, _) ↦ inr (inr (inr (ground (arith, rw (m, d, l) at h))))
      ]
    ]
  ]

goes_before-Precedes : (a b : CrawlTask) → goes_before a b ≡ true → Precedes a b
unfolding goes_before
goes_before-Precedes a b h = ground arith

-- A worker's SELECT returns a row that has attempts left, whose not_before has come, whose lease has
-- passed and which no other transaction has locked, and each such row has a lower priority or the
-- same and no earlier creation; it returns nothing only if each row is out of attempts, must wait, is
-- leased or is locked.
pub select_task-IsNext :
    (now : ℕ) (held : CrawlTask → Bool) (queue : Queue)
    → IsNext now held queue (select_task now held queue)
select_task-IsNext now held queue =
    next (select_task now held queue) (select_task-IsFirst now held queue)
  where
    next :
        (o : Option CrawlTask)
        → IsFirst (λ task. is_claimable now task && not (held task)) queue o
        → IsNext now held queue o
    next none h = All-map _ (IsBusy now held) queue (unclaimable-IsBusy now held) h
    next (some task) (among, free, first) = (
      among,
      claimable-IsFree now held task free,
      All-map _ (λ u. IsBusy now held u ⊎ Precedes task u) queue
          (λ u k. elim (Bool-cases (is_claimable now u && not (held u))) [
            | inl t ↦ inr (goes_before-Precedes task u (k t))
            | inr f ↦ inl (unclaimable-IsBusy now held u f)
          ])
          first,
    )
