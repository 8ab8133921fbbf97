-- ===== src/Queue/Steps.antt =====
-- Histories of the queue: the transactions of the workers, of the handlers that enqueue, and of the
-- scheduler, in the order in which they commit (textlake/queue/worker.py).
use meritmolt.Prelude.{ℕ, String, Bool, Option, List, [], ◌∷◌}
use meritmolt.Text.{Text}
use meritmolt.Json.{Json}
use meritmolt.Queue.{
  CrawlTask, Queue, Digests, enqueue, claim, delete_task, postpone_task, fail_task,
}
use meritmolt.Queue.Scheduler.{Memory, Fresh, enqueue_due, recover_if_due}

-- How a claimed task ends: its kind has no handler, its handler returned, it raised
-- TransientAuthError or RateLimitResetError (with reset_at), or another exception.
pub data Ending : Type 0 where
  no_handler returned : Ending
  transient : Option ℕ → Text → Ending
  raised : Text → Ending

-- What the worker does at the end of a task that it claimed at `now`.
unfoldable pub end_task : ℕ → ℕ → Ending → Queue → Queue
end_task task_id now no_handler queue = delete_task task_id queue
end_task task_id now returned queue = delete_task task_id queue
end_task task_id now (transient reset_at error) queue =
    postpone_task task_id now reset_at error queue
end_task task_id now (raised error) queue = fail_task task_id now error queue

pub data Event : Type 0 where
  enqueues : (id now : ℕ) → String → Json → ℕ → Event
  claims : (worker : String) → (now : ℕ) → (CrawlTask → Bool) → Event
  ends : (task_id now : ℕ) → Ending → Event
  schedules : Memory → Fresh → ℕ → Event

unfoldable pub step : Digests → Event → Queue → Queue
step lib (enqueues id now kind params priority) queue =
    enqueue lib id now kind params priority queue
step lib (claims worker now held) queue = (claim worker now held queue).1
step lib (ends task_id now ending) queue = end_task task_id now ending queue
step lib (schedules m fresh now) queue = recover_if_due m now (enqueue_due lib m fresh now queue)

unfoldable pub run_events : Digests → List Event → Queue → Queue
run_events lib [] queue = queue
run_events lib (e ∷ events) queue = run_events lib events (step lib e queue)
