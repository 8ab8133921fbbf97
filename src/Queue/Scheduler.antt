-- ===== src/Queue/Scheduler.antt =====
-- The scheduler (textlake/queue/scheduler.py): one pass of its loop over crawl_task and raw_capture.
use meritmolt.Prelude.{
  ℕ, ◌+◌, ◌-◌, ◌*◌, String, Bool, true, false, ◌&&◌, not, Option, none, some, List, keep_if,
  update_if, ltb, leb, if◌then◌else◌,
}
use meritmolt.Json.{number, text, object, end, field}
use meritmolt.Auth.Tables.{seconds}
use meritmolt.Queue.{CrawlTask, Queue, Digests, dedupe_key, insert_task}

-- A row of raw_capture, by its fetched_at.
pub record RawCapture : Type 0 where
  pub fetched_at : ℕ

-- What the loop remembers: when it last did each of its jobs.
pub record Memory : Type 0 where
  pub last_list_submolts : Option ℕ
  pub last_hot : Option ℕ
  pub last_new : Option ℕ
  pub last_rising : Option ℕ
  pub last_top : Option ℕ
  pub last_parked_recovery : Option ℕ
  pub last_prune : Option ℕ

abbrev pub no_memory : Memory
no_memory = record {
  last_list_submolts = none;
  last_hot = none;
  last_new = none;
  last_rising = none;
  last_top = none;
  last_parked_recovery = none;
  last_prune = none;
}

-- `last is None or (now - last).total_seconds() >= interval`.
abbrev pub due : ℕ → ℕ → Option ℕ → Bool
due interval now none = true
due interval now (some last) = leb (seconds interval) (now - last)

abbrev pub renew : ℕ → ℕ → Option ℕ → Option ℕ
renew interval now last = if due interval now last then some now else last

-- The uuid4 of each row that a pass may insert.
pub record Fresh : Type 0 where
  pub list_submolts : ℕ
  pub hot : ℕ
  pub new : ℕ
  pub rising : ℕ
  pub top : ℕ

unfoldable pub enqueue_list_submolts : Digests → Memory → ℕ → ℕ → Queue → Queue
enqueue_list_submolts lib m id now queue =
    if due 900 now m.last_list_submolts
    then insert_task id now "list_submolts" (object end)
        (dedupe_key lib "list_submolts" (object end)) 10 queue
    else queue

-- One round of the loop over the feed's sorts; the dedupe key leaves the limit out.
unfoldable pub enqueue_feed : Digests → String → Option ℕ → ℕ → ℕ → Queue → Queue
enqueue_feed lib sort last id now queue =
    if due 60 now last
    then insert_task id now "poll_posts_feed"
        (object (field "sort" (text sort) (field "limit" (number 25) end)))
        (dedupe_key lib "poll_posts_feed" (object (field "sort" (text sort) end))) 8 queue
    else queue

-- `updated_at < now - 3600 seconds`, with the subtraction on the other side.
abbrev pub is_parked : ℕ → CrawlTask → Bool
is_parked now task = leb task.max_attempts task.attempts && ltb (task.updated_at + seconds 3600) now

abbrev pub unpark : ℕ → CrawlTask → CrawlTask
unpark now task = record task { attempts = 0; not_before = some now; updated_at = now }

-- The UPDATE of the parked tasks.
unfoldable pub recover_parked : ℕ → Queue → Queue
recover_parked now queue = update_if (is_parked now) (unpark now) queue

unfoldable pub recover_if_due : Memory → ℕ → Queue → Queue
recover_if_due m now queue =
    if due 600 now m.last_parked_recovery then recover_parked now queue else queue

-- The DELETE of the captures that are older than a day.
unfoldable pub prune : ℕ → List RawCapture → List RawCapture
prune now captures =
    keep_if (λ (c : RawCapture). not (ltb (c.fetched_at + seconds (24 * 3600)) now)) captures

unfoldable pub prune_if_due : Memory → ℕ → List RawCapture → List RawCapture
prune_if_due m now captures = if due 3600 now m.last_prune then prune now captures else captures

unfoldable pub remember : Memory → ℕ → Memory
remember m now = record {
  last_list_submolts = renew 900 now m.last_list_submolts;
  last_hot = renew 60 now m.last_hot;
  last_new = renew 60 now m.last_new;
  last_rising = renew 60 now m.last_rising;
  last_top = renew 60 now m.last_top;
  last_parked_recovery = renew 600 now m.last_parked_recovery;
  last_prune = renew 3600 now m.last_prune;
}

unfoldable pub enqueue_due : Digests → Memory → Fresh → ℕ → Queue → Queue
enqueue_due lib m fresh now queue =
    let q0 = enqueue_list_submolts lib m fresh.list_submolts now queue in
    let q1 = enqueue_feed lib "hot" m.last_hot fresh.hot now q0 in
    let q2 = enqueue_feed lib "new" m.last_new fresh.new now q1 in
    let q3 = enqueue_feed lib "rising" m.last_rising fresh.rising now q2 in
    enqueue_feed lib "top" m.last_top fresh.top now q3

-- A pass whose statements succeed. When the commit fails the tables stay, and the loop remembers its
-- jobs as done all the same.
unfoldable pub pass :
    Digests → Bool → Fresh → ℕ → Memory × Queue × List RawCapture → Memory × Queue × List RawCapture
pass lib true fresh now (m, queue, captures) = (
  remember m now,
  recover_if_due m now (enqueue_due lib m fresh now queue),
  prune_if_due m now captures,
)
pass lib false fresh now (m, queue, captures) = (remember m now, queue, captures)
