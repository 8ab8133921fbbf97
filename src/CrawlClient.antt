-- ===== src/CrawlClient.antt =====
-- The crawler's client of the MoltBook API (textlake/client.py). Times are microseconds since the year
-- 1, the least that a datetime holds. httpx is a parameter: what each GET comes to.
pub mod Attempts
pub mod Limiter
use meritmolt.Prelude.{
  ℕ, zero, suc, ◌+◌, ◌-◌, ◌*◌, ◌/◌, ◌^◌, max, Bool, true, false, ◌&&◌, ◌||◌, Option, none, some,
  List, [], ◌∷◌, ltb, leb, ◌==◌, if◌then◌else◌,
}
use mathlib.Core.Option
use meritmolt.Text.{Text, strip}
use meritmolt.Json.{Json}
use meritmolt.Retrying.{Attempt, returned, raised, Retrying}

-- A Python int.
pub data Whole : Type 0 where
  whole : ℕ → Whole
  minus : ℕ → Whole

abbrev is_digit : ℕ → Bool
is_digit c = leb 48 c && leb c 57

-- Digits with single underscores between them.
unfoldable pub digits : ℕ → Bool → Text → Option ℕ
digits n after_digit [] = if after_digit then some n else none
digits n after_digit (c ∷ cs) =
    let more = digits (n * 10 + (c - 48)) true cs in
    let rest = digits n false cs in
    if is_digit c then more else if (c == 95) && after_digit then rest else none

unfoldable pub signed : Text → Option Whole
unfolding digits
signed [] = none
signed (c ∷ cs) =
    if c == 45
    then Option.map minus (digits 0 false cs)
    else if c == 43
    then Option.map whole (digits 0 false cs)
    else Option.map whole (digits 0 false (c ∷ cs))

-- `int(text)` of a header, `none` for ValueError; below the length where int refuses its text.
unfoldable pub int_of : Text → Option Whole
unfolding strip signed
int_of cs = signed (strip cs)

abbrev pub micros : ℕ → ℕ
micros secs = secs * 1000000

-- The seconds from the year 1 to 1970, and to the year 10000.
abbrev pub epoch : ℕ
epoch = 62135596800

abbrev pub end_of_time : ℕ
end_of_time = 315537897600

abbrev pub time_t : ℕ
time_t = 2 ^ 63

pub record Headers : Type 0 where
  pub retry_after : Option Text
  pub ratelimit_reset : Option Text
  pub ratelimit_remaining : Option Text

-- What a header says: a time, nothing, or OverflowError, which nothing catches.
pub data Reset : Type 0 where
  reset_at : ℕ → Reset
  unsaid : Reset
  overflow : Reset

-- `datetime.now() + timedelta(seconds=secs)`.
unfoldable pub seconds_from : ℕ → Whole → Reset
seconds_from now (whole n) =
    if ltb (now + micros n) (micros end_of_time) then reset_at (now + micros n) else overflow
seconds_from now (minus n) = if leb (micros n) now then reset_at (now - micros n) else overflow

-- `datetime.fromtimestamp(ts)`: a year that is out of range is ValueError, and what time_t does not
-- hold is OverflowError.
unfoldable pub from_timestamp : Whole → Reset
from_timestamp (whole n) =
    if ltb (epoch + n) end_of_time
    then reset_at (micros (epoch + n))
    else if ltb n time_t
    then unsaid
    else overflow
from_timestamp (minus n) =
    if leb n epoch then reset_at (micros (epoch - n)) else if leb n time_t then unsaid else overflow

unfoldable pub read_epoch : Option Text → Reset
unfolding int_of from_timestamp
read_epoch none = unsaid
read_epoch (some reset) = elim (int_of reset) [ none ↦ unsaid | some ts ↦ from_timestamp ts ]

-- _parse_reset_time.
unfoldable pub parse_reset_time : ℕ → Headers → Reset
unfolding int_of seconds_from read_epoch
parse_reset_time now headers = elim headers.retry_after [
  | none ↦ read_epoch headers.ratelimit_reset
  | some retry_after ↦ elim (int_of retry_after) [
    | none ↦ read_epoch headers.ratelimit_reset
    | some secs ↦ seconds_from now secs
  ]
]

-- The exceptions of an attempt: httpx.TransportError, TransientAuthError, RateLimitResetError,
-- httpx.HTTPStatusError, and all others.
pub data Exception : Type 0 where
  transport_error : Exception
  transient_auth : Exception
  rate_limit_reset : ℕ → Exception
  status_error : ℕ → Exception
  other_error : Exception

-- _should_retry.
unfoldable pub should_retry : Exception → Bool
should_retry transport_error = true
should_retry transient_auth = true
should_retry (rate_limit_reset at) = false
should_retry (status_error code) = if code == 429 then false else leb 500 code
should_retry other_error = false

-- What a GET comes to: a TransportError, or a response; its body is `none` where `resp.json()` raises.
pub data Response : Type 0 where
  unreachable : Response
  response : ℕ → Headers → Option Json → Response

abbrev pub is_spent : Whole → Bool
is_spent (whole n) = n == 0
is_spent (minus n) = true

abbrev pub tightened : Option Whole → ℕ → ℕ
tightened none rate = rate
tightened (some n) rate = if is_spent n && ltb 1 rate then max 1 (rate / 2) else rate

-- _adjust_limiter_from_headers on the limiter's max_rate.
unfoldable pub adjust_limiter : Option Text → ℕ → ℕ
adjust_limiter none rate = rate
adjust_limiter (some remaining) rate = tightened (int_of remaining) rate

unfoldable pub rate_after : Response → ℕ → ℕ
rate_after unreachable rate = rate
rate_after (response status headers body) rate = adjust_limiter headers.ratelimit_remaining rate

-- `reset or now + 1 minute`, raised.
abbrev pub limit_error : ℕ → Reset → Exception
limit_error now (reset_at at) = rate_limit_reset at
limit_error now unsaid = rate_limit_reset (now + micros 60)
limit_error now overflow = other_error

-- `resp.json()`.
abbrev pub json_of : Option Json → Attempt Exception Json
json_of none = raised other_error
json_of (some body) = returned body

-- raise_for_status refuses whatever is not a 2xx.
abbrev pub is_success : ℕ → Bool
is_success status = leb 200 status && ltb status 300

-- _do, once the semaphore and the limiter let it go: `now` is the time of the answer.
unfoldable pub attempt : ℕ → Response → Attempt Exception Json
attempt now unreachable = raised transport_error
attempt now (response status headers body) =
    if status == 401
    then raised transient_auth
    else if status == 429
    then raised (limit_error now (parse_reset_time now headers))
    else if is_success status
    then json_of body
    else raised (status_error status)

-- MoltbookClient.get: `answers k` is the time and the outcome of attempt k.
unfoldable pub get : Retrying Exception Json → ℕ → (ℕ → ℕ × Response) → Attempt Exception Json
get retrying max_attempts answers =
    retrying.run should_retry max_attempts (λ k. attempt (answers k).0 (answers k).1)

-- The limiter's rate after a list of answers, the first first.
unfoldable pub rate_all : List Response → ℕ → ℕ
rate_all [] rate = rate
rate_all (r ∷ rest) rate = rate_all rest (rate_after r rate)
