-- ===== src/RateLimit/Bucket.antt =====
-- TokenBucket (meritmolt/ratelimit.py). The clock is in nanoseconds and the rate in tokens per
-- hour; the source's floats are exact here, as whole numbers of units, where one token has as many
-- units as an hour has nanoseconds.
pub mod Rate
use meritmolt.Prelude.{
  ℕ, ◌+◌, ◌-◌, ◌*◌, ◌/◌, min, max, Bool, ◌&&◌, List, [], ◌∷◌, suc, leb, ltb, ◌==◌, if◌then◌else◌,
}

-- One token.
abbrev pub token : ℕ
token = 3600000000000

abbrev pub nanoseconds : ℕ
nanoseconds = 1000000000

pub record TokenBucket : Type 0 where
  pub max_tokens : ℕ
  pub refill_rate : ℕ
  pub tokens : ℕ
  pub last_refill : ℕ

-- The constructor with the default `tokens = 0.0`, and `__post_init__`.
unfoldable pub new_bucket : ℕ → ℕ → ℕ → TokenBucket
new_bucket burst refill_rate now = record {
  max_tokens = burst * token;
  refill_rate = refill_rate;
  tokens = if ltb 0 (burst * token) then burst * token else 0;
  last_refill = now;
}

-- The answer of try_acquire; a delay is a fraction of seconds.
pub data Answer : Type 0 where
  allowed : Answer
  denied : (num den : ℕ) → Answer

unfoldable pub refill : ℕ → TokenBucket → TokenBucket
refill now b = record b {
  tokens = min b.max_tokens (b.tokens + (now - b.last_refill) * b.refill_rate);
  last_refill = now;
}

-- From the test of the refilled bucket on.
unfoldable pub take_token : TokenBucket → Answer × TokenBucket
take_token b =
    if leb token b.tokens
    then (allowed, record b { tokens = b.tokens - token })
    else if b.refill_rate == 0
    then (denied 60 1, b)
    else (denied (token - b.tokens) (b.refill_rate * nanoseconds), b)

unfoldable pub try_acquire : ℕ → TokenBucket → Answer × TokenBucket
try_acquire now b = take_token (refill now b)

-- `max(1, math.ceil(retry_after))`, the header of send_json_response.
unfoldable pub retry_after_header : ℕ → ℕ → ℕ
retry_after_header num den = max 1 ((num + (den - 1)) / den)

-- One more, if the answer is yes.
abbrev pub tally : Answer → ℕ → ℕ
tally allowed n = suc n
tally (denied num den) n = n

-- The requests at the given times: how many are allowed, and the bucket after them.
unfoldable pub acquire_all : List ℕ → TokenBucket → ℕ × TokenBucket
acquire_all [] b = (0, b)
acquire_all (now ∷ times) b =
    let (answer, b1) = try_acquire now b in
    let (n, b2) = acquire_all times b1 in (tally answer n, b2)
