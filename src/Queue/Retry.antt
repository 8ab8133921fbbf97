-- ===== src/Queue/Retry.antt =====
-- When a task that failed is claimed again (textlake/queue/worker.py, textlake/queue/scheduler.py).
use meritmolt.Prelude.{
  ℕ, suc, ◌+◌, ◌^◌, ◌≤◌, ◌<◌, ◌≡◌, refl, min, Bool, true, false, ◌&&◌, Option, some, ltb, leb,
  arith, find_if, find_if-update_if, find_if_passes,
}
use meritmolt.Text.{Text}
use meritmolt.Auth.Tables.{seconds}
use meritmolt.Queue.{
  CrawlTask, Queue, is_claimable, has_task_id, fail_row, fail_task, next_try, backoff_seconds,
}
use meritmolt.Queue.Scheduler.{is_parked, unpark, recover_parked}

abbrev pub row_of : ℕ → Queue → Option CrawlTask
row_of i queue = find_if (has_task_id i) queue

and_true : (b : Bool) → (b && true) ≡ b
and_true true = refl
and_true false = refl

fail_task_row :
    (i now : ℕ) (error : Text) (queue : Queue) (task : CrawlTask)
    → row_of i queue ≡ some task
    → row_of i (fail_task i now error queue) ≡ some (fail_row now error task)
unfolding fail_task fail_row
fail_task_row i now error queue task h =
    rw
      (
        find_if-update_if (has_task_id i) (has_task_id i) (fail_row now error) queue (λ x. refl),
        h,
        find_if_passes (has_task_id i) queue task h,
      )
      refl

-- A task that failed and has attempts left may be claimed again from min(2 ** attempts, 3600) seconds
-- after the claim of the attempt that failed, and not before, where the attempts include that one.
pub backoff_window :
    (i now later : ℕ) (error : Text) (queue : Queue) (task : CrawlTask)
    → row_of i queue ≡ some task
    → suc task.attempts < task.max_attempts
    → (failed : CrawlTask) × (row_of i (fail_task i now error queue) ≡ some failed)
      × (is_claimable later failed ≡ leb (now + seconds (min (2 ^ suc task.attempts) 3600)) later)
unfolding next_try backoff_seconds fail_row
backoff_window i now later error queue task h left =
    (fail_row now error task, fail_task_row i now error queue task h, claimable)
  where
    claimable :
        is_claimable later (fail_row now error task)
        ≡ leb (now + seconds (min (2 ^ suc task.attempts) 3600)) later
    claimable =
        let more : leb task.max_attempts (suc task.attempts) ≡ false = ground (arith, left) in
        let under : ltb (suc task.attempts) task.max_attempts ≡ true = ground (arith, left) in
        rw (under, more) (and_true _)

-- A task that failed for the last time is not claimed until the scheduler recovers it, and once it
-- was: the first recovery pass that is more than an hour after the claim of the attempt that failed makes it claimable at once, whatever
-- its 30 days.
pub parked_until_recovery :
    (i now : ℕ) (error : Text) (queue : Queue) (task : CrawlTask)
    → row_of i queue ≡ some task
    → task.max_attempts ≤ suc task.attempts
    → 0 < task.max_attempts
    → (parked : CrawlTask) × (row_of i (fail_task i now error queue) ≡ some parked)
      × ((later : ℕ) → is_claimable later parked ≡ false)
      × ((later : ℕ)
          → now + seconds 3600 < later
          → (back : CrawlTask) × (row_of i (recover_parked later (fail_task i now error queue))
              ≡ some back)
            × (is_claimable later back ≡ true))
unfolding fail_row recover_parked
parked_until_recovery i now error queue task h last some_try =
    (fail_row now error task, fail_task_row i now error queue task h, never, again)
  where
    never : (later : ℕ) → is_claimable later (fail_row now error task) ≡ false
    never later =
        let spent : ltb (suc task.attempts) task.max_attempts ≡ false = ground (arith, last) in
        rw spent refl

    again :
        (later : ℕ)
        → now + seconds 3600 < later
        → (back : CrawlTask) × (row_of i (recover_parked later (fail_task i now error queue))
            ≡ some back)
          × (is_claimable later back ≡ true)
    again later waited =
        let spent : leb task.max_attempts (suc task.attempts) ≡ true = ground (arith, last) in
        let old : ltb (now + seconds 3600) later ≡ true = ground (arith, waited) in
        let tries : ltb 0 task.max_attempts ≡ true = ground (arith, some_try) in
        let now_due : leb later later ≡ true = ground arith in
        (
          unpark later (fail_row now error task),
          rw
              (
                find_if-update_if (has_task_id i) (is_parked later) (unpark later)
                    (fail_task i now error queue) (λ x. refl),
                fail_task_row i now error queue task h,
                spent,
                old,
              )
              refl,
          rw (tries, now_due) refl,
        )
