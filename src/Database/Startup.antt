-- ===== src/Database/Startup.antt =====
-- meritrank_bulk_init at start-up, with its retries (meritmolt/database.py): delays are in seconds.
pub mod Retries
use meritmolt.Prelude.{
  ℕ, zero, suc, ◌+◌, ◌*◌, min, Bool, true, false, ◌||◌, not, Option, none, some, List, [], ◌∷◌,
  ◌==◌, if◌then◌else◌,
}
use meritmolt.Text.{Text, codes, has_prefix}

-- `needle in text`.
unfoldable pub contains : Text → Text → Bool
contains needle [] = has_prefix needle []
contains needle (c ∷ cs) = has_prefix needle (c ∷ cs) || contains needle cs

-- `"sqlite" in url`.
unfoldable pub is_sqlite : Text → Bool
is_sqlite url = contains (codes "sqlite") url

-- An exception, by the text of `str` and that of its `__cause__`, where it has one.
pub record Raised : Type 0 where
  pub message : Text
  pub cause : Option Text

abbrev retryable_message : Text
retryable_message = codes "Try again"

abbrev cause_retryable : Option Text → Bool
cause_retryable none = false
cause_retryable (some cause) = contains retryable_message cause

unfoldable pub is_meritrank_retryable : Raised → Bool
is_meritrank_retryable e = contains retryable_message e.message || cause_retryable e.cause

-- What the execution of `SELECT meritrank_bulk_init()` comes to: it returns, or raises a DBAPIError,
-- or another exception.
pub data Execution : Type 0 where
  executed : Execution
  dbapi_error other_error : Raised → Execution

pub data Finish : Type 0 where
  initialised : Finish
  failed : Raised → Finish

abbrev pub max_retries : ℕ
max_retries = 5

abbrev pub max_delay : ℕ
max_delay = 30

-- The loop from an attempt on: its end, and the sleeps before it. `left` is what is left of the
-- range, this attempt included.
unfoldable pub retry_from : (ℕ → Execution) → (left attempt delay : ℕ) → Finish × List ℕ
retry_from execute zero attempt delay = (initialised, [])
retry_from execute (suc left) attempt delay =
    let (finish, sleeps) = retry_from execute left (suc attempt) (min (delay * 2) max_delay) in
    elim (execute attempt) [
      | executed ↦ (initialised, [])
      | other_error e ↦ (failed e, [])
      | dbapi_error e ↦
          if not (is_meritrank_retryable e) || (attempt == 4)
          then (failed e, [])
          else (finish, delay ∷ sleeps)
    ]

unfoldable pub meritrank_init_with_retry : (ℕ → Execution) → Finish × List ℕ
meritrank_init_with_retry execute = retry_from execute max_retries 0 1
