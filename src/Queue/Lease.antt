-- ===== src/Queue/Lease.antt =====
-- The lease of a claimed task (textlake/queue/worker.py): until it is over or the task has ended,
-- no other claim gets the task.
use meritmolt.Prelude.{
  ℕ, ◌+◌, ◌≤◌, ◌≡◌, ◌≢◌, refl, subst, inl, inr, Bool, true, false, ◌&&◌, not, Option, none, some,
  String, List, [], ◌∷◌, All, All-append, All-update, All-keep_if, All-update_where, All-Among,
  Bool-cases, Option-cases, arith, find_if, is_none, update_if,
}
use meritmolt.Queue.{
  CrawlTask, Queue, Digests, enqueue, insert_task, new_task, is_claimable, is_unlocked, has_task_id,
  has_dedupe_key, claim, lock_for, lease, select_task, delete_task, postpone_row, postpone_task,
  fail_task, fail_row,
}
use meritmolt.Queue.Claim.{IsFirst, select_task-IsFirst}
use meritmolt.Queue.Scheduler.{
  Memory, enqueue_due, enqueue_feed, enqueue_list_submolts, recover_if_due, recover_parked,
  is_parked, unpark, due,
}
use meritmolt.Queue.Steps.{
  Ending, no_handler, returned, transient, raised, end_task, Event, enqueues, claims, ends,
  schedules, step, run_events,
}

-- Every row with the id is locked until `until` at least.
abbrev pub LockedRow : ℕ → ℕ → CrawlTask → Type 0
LockedRow i until task = has_task_id i task ≡ true → is_unlocked until task.locked_until ≡ false

abbrev pub Locked : ℕ → ℕ → Queue → Type 0
Locked i until queue = All (LockedRow i until) queue

-- An event of the lease: its clock is within the lease, the ids it draws are new, and it is not the
-- end of the task.
abbrev pub Within : ℕ → ℕ → Event → Type 0
Within i until (enqueues id now kind params priority) = id ≢ i
Within i until (claims worker now held) = now ≤ until
Within i until (ends task_id now ending) = task_id ≢ i
Within i until (schedules m fresh now) =
    (fresh.list_submolts ≢ i)
    × (fresh.hot ≢ i)
    × (fresh.new ≢ i)
    × (fresh.rising ≢ i)
    × (fresh.top ≢ i)

module _ (i until : ℕ) where
  insert_task-Locked :
      (id now : ℕ) (kind : String) (params : _) (key : String) (priority : ℕ) (queue : Queue)
      → id ≢ i
      → Locked i until queue
      → Locked i until (insert_task id now kind params key priority queue)
  unfolding insert_task new_task
  insert_task-Locked id now kind params key priority queue fresh h =
      elim (Bool-cases (is_none (find_if (has_dedupe_key key) queue))) [
        | inl t ↦
            rw t
              (All-append (LockedRow i until) queue _ h ((λ e. absurd (fresh (ground arith))), tt))
        | inr f ↦ rw f h
      ]

  -- An update of the rows of another id.
  update_other-Locked :
      (task_id : ℕ) (f : CrawlTask → CrawlTask) (queue : Queue)
      → task_id ≢ i
      → ((x : CrawlTask) → (f x).id ≡ x.id)
      → Locked i until queue
      → Locked i until (update_if (has_task_id task_id) f queue)
  update_other-Locked task_id f queue other same h =
      All-update_where (LockedRow i until) (has_task_id task_id) f queue
        (λ x t p e. absurd (other (ground (arith, t, e, same x)))) h

  -- Another task's end.
  end_task-Locked :
      (task_id now : ℕ) (ending : Ending) (queue : Queue)
      → task_id ≢ i
      → Locked i until queue
      → Locked i until (end_task task_id now ending queue)
  unfolding end_task delete_task postpone_task postpone_row fail_task fail_row
  end_task-Locked task_id now no_handler queue other h = All-keep_if (LockedRow i until) _ queue h
  end_task-Locked task_id now returned queue other h = All-keep_if (LockedRow i until) _ queue h
  end_task-Locked task_id now (transient reset_at error) queue other h =
      update_other-Locked task_id (postpone_row now reset_at error) queue other (λ x. refl) h
  end_task-Locked task_id now (raised error) queue other h =
      update_other-Locked task_id (fail_row now error) queue other (λ x. refl) h

  -- A claim within the lease selects another task.
  select_task-other :
      (now : ℕ) (held : CrawlTask → Bool) (queue : Queue) (task : CrawlTask)
      → now ≤ until
      → select_task now held queue ≡ some task
      → Locked i until queue
      → task.id ≢ i
  select_task-other now held queue task within selected h same =
      let (among, claimable, first) =
        subst (IsFirst (λ t. is_claimable now t && not (held t)) queue) selected
          (select_task-IsFirst now held queue) in
      let locked : is_unlocked until task.locked_until ≡ false =
        All-Among (LockedRow i until) queue task h among (ground (arith, same)) in
      still_locked task.locked_until (and_last _ _ (and_first _ _ claimable)) locked
    where
      and_first : (a b : Bool) → (a && b) ≡ true → a ≡ true
      and_first true b e = refl
      and_first false b e = absurd (cc)

      and_last : (a b : Bool) → (a && b) ≡ true → b ≡ true
      and_last true b e = e
      and_last false b e = absurd (cc)

      still_locked : (o : Option ℕ) → is_unlocked now o ≡ true → is_unlocked until o ≡ false → ⊥
      still_locked none e f = cc
      still_locked (some t) e f = ground (arith, within)

  claim-Locked :
      (worker : String) (now : ℕ) (held : CrawlTask → Bool) (queue : Queue)
      → now ≤ until
      → Locked i until queue
      → Locked i until (claim worker now held queue).1
  unfolding claim
  claim-Locked worker now held queue within h = elim (Option-cases (select_task now held queue)) [
    | inl e ↦ rw e h
    | inr (task, e) ↦ rw e (
        update_other-Locked task.id _ queue (select_task-other now held queue task within e h)
          (λ x. refl) h)
  ]

  enqueue_feed-Locked :
      (lib : Digests) (sort : String) (last : Option ℕ) (id now : ℕ) (queue : Queue)
      → id ≢ i
      → Locked i until queue
      → Locked i until (enqueue_feed lib sort last id now queue)
  unfolding enqueue_feed
  enqueue_feed-Locked lib sort last id now queue fresh h = elim (Bool-cases (due 60 now last)) [
    | inl t ↦ rw t (insert_task-Locked id now "poll_posts_feed" _ _ 8 queue fresh h)
    | inr f ↦ rw f h
  ]

  enqueue_list_submolts-Locked :
      (lib : Digests) (m : Memory) (id now : ℕ) (queue : Queue)
      → id ≢ i
      → Locked i until queue
      → Locked i until (enqueue_list_submolts lib m id now queue)
  unfolding enqueue_list_submolts
  enqueue_list_submolts-Locked lib m id now queue fresh h =
      elim (Bool-cases (due 900 now m.last_list_submolts)) [
        | inl t ↦ rw t (insert_task-Locked id now "list_submolts" _ _ 10 queue fresh h)
        | inr f ↦ rw f h
      ]

  recover_if_due-Locked :
      (m : Memory) (now : ℕ) (queue : Queue)
      → Locked i until queue
      → Locked i until (recover_if_due m now queue)
  unfolding recover_if_due recover_parked
  recover_if_due-Locked m now queue h = elim (Bool-cases (due 600 now m.last_parked_recovery)) [
    | inl t ↦ rw t (All-update (LockedRow i until) (is_parked now) (unpark now) queue (λ x k. k) h)
    | inr f ↦ rw f h
  ]

  step-Locked :
      (lib : Digests) (e : Event) (queue : Queue)
      → Within i until e
      → Locked i until queue
      → Locked i until (step lib e queue)
  unfolding step enqueue enqueue_due
  step-Locked lib (enqueues id now kind params priority) queue within h =
      insert_task-Locked id now kind params _ priority queue within h
  step-Locked lib (claims worker now held) queue within h =
      claim-Locked worker now held queue within h
  step-Locked lib (ends task_id now ending) queue within h =
      end_task-Locked task_id now ending queue within h
  step-Locked lib (schedules m fresh now) queue (a, b, c, d, e) h = recover_if_due-Locked m now _ (
      enqueue_feed-Locked lib "top" m.last_top fresh.top now _ e (
        enqueue_feed-Locked lib "rising" m.last_rising fresh.rising now _ d (
          enqueue_feed-Locked lib "new" m.last_new fresh.new now _ c (
            enqueue_feed-Locked lib "hot" m.last_hot fresh.hot now _ b
              (enqueue_list_submolts-Locked lib m fresh.list_submolts now queue a h)))))

  run_events-Locked :
      (lib : Digests) (events : List Event) (queue : Queue)
      → All (Within i until) events
      → Locked i until queue
      → Locked i until (run_events lib events queue)
  unfolding run_events
  run_events-Locked lib [] queue within h = h
  run_events-Locked lib (e ∷ events) queue within h =
      run_events-Locked lib events (step lib e queue) within.1 (step-Locked lib e queue within.0 h)

-- The claim itself locks the task for the lease.
claim-locks :
    (worker : String) (now : ℕ) (held : CrawlTask → Bool) (queue : Queue) (task : CrawlTask)
    → (claim worker now held queue).0 ≡ some task
    → Locked task.id (now + lease) (claim worker now held queue).1
unfolding claim
claim-locks worker now held queue task e = rw e (lock_all queue)
  where
    lock_all :
        (rows : Queue)
        → Locked task.id
            (now + lease)
            (update_if (has_task_id task.id) (lock_for worker (now + lease)) rows)
    lock_all [] = tt
    lock_all (x ∷ rows) = elim (Bool-cases (has_task_id task.id x)) [
      | inl t ↦ rw t ((λ _. ground arith), lock_all rows)
      | inr f ↦ rw f ((λ e. absurd (let g : false ≡ true = rw f at e in cc)), lock_all rows)
    ]

-- A claimed task is not claimed a second time during its lease: after a claim and any further
-- history of enqueues, claims, ends of other tasks and passes of the scheduler, a claim at most 300
-- seconds after the first gets another task, when the claims of the history are within the lease too and no
-- new row draws the task's id. No end of the claimed task is in the history: neither that of its own
-- worker nor that of an earlier claimant whose lease ran out, which would clear the lock too.
pub lease_exclusive :
    (lib : Digests) (worker : String) (now : ℕ) (held : CrawlTask → Bool) (queue : Queue)
    (task : CrawlTask)
    → (claim worker now held queue).0 ≡ some task
    → (events : List Event) → All (Within task.id (now + lease)) events
    → (worker' : String) (now' : ℕ) (held' : CrawlTask → Bool) (other : CrawlTask)
    → now' ≤ now + lease
    → (claim worker' now' held' (run_events lib events (claim worker now held queue).1)).0
      ≡ some other
    → other.id ≢ task.id
unfolding claim
lease_exclusive lib worker now held queue task claimed events within worker' now' held' other early
      again =
    select_task-other task.id (now + lease) now' held' _ other early again (
      run_events-Locked task.id (now + lease) lib events _ within
        (claim-locks worker now held queue task claimed))
