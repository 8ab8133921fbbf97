-- ===== src/Tests/Queue.antt =====
-- The crawl queue on concrete histories (textlake/queue, textlake/handlers/enqueue.py).
use meritmolt.Prelude.{
  ℕ, suc, ◌+◌, ◌^◌, min, ◌≡◌, ◌≢◌, ◌<◌, refl, arith, String, Bool, true, false, none, some, List,
  [], ◌∷◌, leb,
}
use meritmolt.Text.{codes}
use meritmolt.Json.{object, end}
use meritmolt.Auth.Tables.{seconds}
use meritmolt.Queue.{
  CrawlTask, Queue, Digests, claim, select_task, first_of, goes_before, better, is_claimable,
  fail_task, fail_row, next_try, backoff_seconds,
}
use meritmolt.Queue.Claim.{IsNext, select_task-IsNext}
use meritmolt.Queue.Lease.{lease_exclusive}
use meritmolt.Queue.Retry.{backoff_window, parked_until_recovery, row_of}
use meritmolt.Queue.Scheduler.{recover_parked}
use meritmolt.Queue.Steps.{Event, claims, ends, raised, run_events, step, end_task}

abbrev digests : Digests
digests = record { sha256 = λ t. "digest"; dumps = λ j. codes "json" }

abbrev task : ℕ → String → ℕ → ℕ → CrawlTask
task i key priority attempts = record {
  id = i;
  kind = "list_submolts";
  params = object end;
  dedupe_key = some key;
  priority = priority;
  not_before = none;
  attempts = attempts;
  max_attempts = 5;
  last_error = none;
  locked_by = none;
  locked_until = none;
  created_at = i;
  updated_at = 0;
}

abbrev two_tasks : Queue
two_tasks = task 1 "one" 0 0 ∷ task 2 "two" 8 0 ∷ []

abbrev none_held : CrawlTask → Bool
none_held t = false

select_task-IsNext_example : IsNext 10 none_held two_tasks (select_task 10 none_held two_tasks)
select_task-IsNext_example = select_task-IsNext 10 none_held two_tasks

claimed_two : (claim "w1" 10 none_held two_tasks).0 ≡ some (task 2 "two" 8 0)
unfolding claim select_task first_of goes_before better
claimed_two = refl

abbrev meanwhile : List Event
meanwhile = claims "w2" 20 none_held ∷ ends 1 20 (raised (codes "boom")) ∷ []

-- Task 1 after its failure.
abbrev failed_one : CrawlTask
failed_one = record (task 1 "one" 0 1) {
  not_before = some 2000020;
  last_error = some (codes "boom");
  updated_at = 20;
}

claimed_one :
    (claim "w3" 3000000 none_held
      (run_events digests meanwhile (claim "w1" 10 none_held two_tasks).1)).0
    ≡ some failed_one
unfolding claim select_task first_of goes_before better run_events step end_task fail_task fail_row
    next_try backoff_seconds
claimed_one = refl

lease_exclusive_example : failed_one.id ≢ 2
lease_exclusive_example =
    lease_exclusive digests "w1" 10 none_held two_tasks (task 2 "two" 8 0) claimed_two meanwhile
      (omega arith, ((λ e. absurd (omega arith)), tt)) "w3" 3000000 none_held failed_one
      (omega arith) claimed_one

backoff_window_example :
    (failed : CrawlTask) × (row_of 1 (fail_task 1 20 (codes "boom") two_tasks) ≡ some failed)
    × (is_claimable 2000020 failed ≡ leb (20 + seconds (min (2 ^ suc 0) 3600)) 2000020)
backoff_window_example =
    backoff_window 1 20 2000020 (codes "boom") two_tasks (task 1 "one" 0 0) refl (omega arith)

abbrev last_try : Queue
last_try = task 1 "one" 0 4 ∷ []

parked_until_recovery_example :
    (parked : CrawlTask) × (row_of 1 (fail_task 1 20 (codes "boom") last_try) ≡ some parked)
    × ((later : ℕ) → is_claimable later parked ≡ false)
    × ((later : ℕ)
        → 20 + seconds 3600 < later
        → (back : CrawlTask) × (row_of 1
              (recover_parked later (fail_task 1 20 (codes "boom") last_try))
            ≡ some back)
          × (is_claimable later back ≡ true))
parked_until_recovery_example =
    parked_until_recovery 1 20 (codes "boom") last_try (task 1 "one" 0 4) refl (omega arith)
      (omega arith)
