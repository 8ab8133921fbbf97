-- ===== src/Queue.antt =====
-- The crawl queue: the table crawl_task (textlake/models/crawl.py), enqueue
-- (textlake/handlers/enqueue.py) and what a worker does to the table
-- (textlake/queue/worker.py). A time is a number of microseconds; the table is the list of its rows.
pub mod Steps
pub mod Claim
pub mod Lease
pub mod Retry
pub mod Scheduler
use meritmolt.Prelude.{
  ℕ, zero, suc, ◌+◌, ◌*◌, ◌^◌, min, String, Bool, true, false, ◌&&◌, not, Option, none, some, List,
  [], ◌∷◌, ◌++◌, find_if, keep_if, update_if, ltb, leb, ◌==◌, is_none, str_eq, if◌then◌else◌,
}
use meritmolt.Text.{Text, codes}
use meritmolt.Json.{Json}
use meritmolt.Auth.Tables.{seconds}

pub record CrawlTask : Type 0 where
  pub id : ℕ
  pub kind : String
  pub params : Json
  pub dedupe_key : Option String
  pub priority : ℕ
  pub not_before : Option ℕ
  pub attempts : ℕ
  pub max_attempts : ℕ
  pub last_error : Option Text
  pub locked_by : Option String
  pub locked_until : Option ℕ
  pub created_at : ℕ
  pub updated_at : ℕ

abbrev pub Queue : Type 0
Queue = List CrawlTask

-- hashlib.sha256 in hexadecimal, and orjson.dumps with sorted keys.
pub record Digests : Type 0 where
  pub sha256 : Text → String
  pub dumps : Json → Text

unfoldable pub dedupe_key : Digests → String → Json → String
dedupe_key lib kind params = lib.sha256 (codes kind ++ codes ":" ++ lib.dumps params)

abbrev pub same_key : Option String → Option String → Bool
same_key none none = true
same_key none (some l) = false
same_key (some k) none = false
same_key (some k) (some l) = str_eq k l

abbrev pub has_dedupe_key : String → CrawlTask → Bool
has_dedupe_key key task = same_key task.dedupe_key (some key)

-- The row that an INSERT makes, with the columns' defaults. `id` is the uuid4.
unfoldable pub new_task : ℕ → ℕ → String → Json → String → ℕ → CrawlTask
new_task id now kind params key priority = record {
  id = id;
  kind = kind;
  params = params;
  dedupe_key = some key;
  priority = priority;
  not_before = none;
  attempts = 0;
  max_attempts = 5;
  last_error = none;
  locked_by = none;
  locked_until = none;
  created_at = now;
  updated_at = now;
}

-- INSERT ... ON CONFLICT (dedupe_key) DO NOTHING.
unfoldable pub insert_task : ℕ → ℕ → String → Json → String → ℕ → Queue → Queue
unfolding new_task
insert_task id now kind params key priority queue =
    if is_none (find_if (has_dedupe_key key) queue)
    then queue ++ new_task id now kind params key priority ∷ []
    else queue

unfoldable pub enqueue : Digests → ℕ → ℕ → String → Json → ℕ → Queue → Queue
enqueue lib id now kind params priority queue =
    insert_task id now kind params (dedupe_key lib kind params) priority queue

abbrev pub lease : ℕ
lease = seconds 300

-- The WHERE of the worker's SELECT.
abbrev pub is_due : ℕ → Option ℕ → Bool
is_due now none = true
is_due now (some t) = leb t now

abbrev pub is_unlocked : ℕ → Option ℕ → Bool
is_unlocked now none = true
is_unlocked now (some t) = ltb t now

abbrev pub is_claimable : ℕ → CrawlTask → Bool
is_claimable now task =
    ltb task.attempts task.max_attempts
    && is_due now task.not_before
    && is_unlocked now task.locked_until

-- ORDER BY priority DESC, created_at ASC: whether the first goes before the second.
unfoldable pub goes_before : CrawlTask → CrawlTask → Bool
goes_before a b =
    if a.priority == b.priority then leb a.created_at b.created_at else ltb b.priority a.priority

unfoldable pub better : CrawlTask → Option CrawlTask → CrawlTask
better task none = task
better task (some other) = if goes_before task other then task else other

-- LIMIT 1 of the rows that pass a test, in that order.
unfoldable pub first_of : (CrawlTask → Bool) → Queue → Option CrawlTask
unfolding better
first_of p [] = none
first_of p (task ∷ queue) =
    let rest = first_of p queue in if p task then some (better task rest) else rest

abbrev pub has_task_id : ℕ → CrawlTask → Bool
has_task_id i task = task.id == i

-- SKIP LOCKED: `held` says which rows other transactions have locked at the moment.
unfoldable pub select_task : ℕ → (CrawlTask → Bool) → Queue → Option CrawlTask
select_task now held queue = first_of (λ task. is_claimable now task && not (held task)) queue

abbrev pub lock_for : String → ℕ → CrawlTask → CrawlTask
lock_for worker until task = record task { locked_by = some worker; locked_until = some until }

abbrev pub lock_selected : String → ℕ → Option CrawlTask → Queue → Queue
lock_selected worker now none queue = queue
lock_selected worker now (some task) queue =
    update_if (has_task_id task.id) (lock_for worker (now + lease)) queue

-- The claiming transaction: the row that was selected, and the table after the UPDATE.
unfoldable pub claim : String → ℕ → (CrawlTask → Bool) → Queue → Option CrawlTask × Queue
claim worker now held queue =
    let selected = select_task now held queue in (selected, lock_selected worker now selected queue)

-- DELETE of the task, when its handler returned or its kind has no handler.
unfoldable pub delete_task : ℕ → Queue → Queue
delete_task task_id queue = keep_if (λ task. not (has_task_id task_id task)) queue

-- `reset_at if reset_at else now + timedelta(minutes=5)`.
abbrev pub retry_at : ℕ → Option ℕ → ℕ
retry_at now none = now + seconds 300
retry_at now (some reset_at) = reset_at

unfoldable pub postpone_row : ℕ → Option ℕ → Text → CrawlTask → CrawlTask
postpone_row now reset_at error task = record task {
  attempts = suc task.attempts;
  not_before = some (retry_at now reset_at);
  last_error = some error;
  locked_by = none;
  locked_until = none;
  updated_at = now;
}

-- After TransientAuthError or RateLimitResetError; `now` is the time of the claim.
unfoldable pub postpone_task : ℕ → ℕ → Option ℕ → Text → Queue → Queue
unfolding postpone_row
postpone_task task_id now reset_at error queue =
    update_if (has_task_id task_id) (postpone_row now reset_at error) queue

unfoldable pub backoff_seconds : ℕ → ℕ
backoff_seconds attempts = min (2 ^ attempts) 3600

abbrev pub park_days : ℕ
park_days = 30

-- When a task that failed for the given number of times is tried again.
unfoldable pub next_try : ℕ → ℕ → ℕ → ℕ
next_try now attempts max_attempts =
    if leb max_attempts attempts
    then now + seconds (park_days * 86400)
    else now + seconds (backoff_seconds attempts)

abbrev pub take : ℕ → Text → Text
take n [] = []
take zero (c ∷ cs) = []
take (suc n) (c ∷ cs) = c ∷ take n cs

unfoldable pub fail_row : ℕ → Text → CrawlTask → CrawlTask
fail_row now error task = record task {
  attempts = suc task.attempts;
  not_before = some (next_try now (suc task.attempts) task.max_attempts);
  last_error = some (take 4096 error);
  locked_by = none;
  locked_until = none;
  updated_at = now;
}

-- After any other exception; nothing, if the row is gone. `row` is what session.get reads.
unfoldable pub fail_task : ℕ → ℕ → Text → Queue → Queue
unfolding fail_row
fail_task task_id now error queue = update_if (has_task_id task_id) (fail_row now error) queue
