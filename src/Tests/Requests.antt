-- ===== src/Tests/Requests.antt =====
-- The crawler's client on concrete answers (textlake/client.py).
use meritmolt.Prelude.{
  ℕ, zero, suc, ◌+◌, ◌≡◌, ◌<◌, refl, arith, inl, true, none, some, [], ◌∷◌, count_if,
}
use meritmolt.Text.{codes, strip}
use meritmolt.Json.{null}
use meritmolt.Retrying.{raised, plain_retrying}
use meritmolt.CrawlClient.{
  whole, minus, int_of, digits, signed, Headers, reset_at, overflow, parse_reset_time, read_epoch,
  from_timestamp, seconds_from, micros, epoch, rate_limit_reset, Response, unreachable, response,
  attempt, get, rate_all, rate_after, adjust_limiter,
}
use meritmolt.CrawlClient.Attempts.{get_settles, is_transient}
use meritmolt.CrawlClient.Limiter.{rate_all-halvings, halvings, says_none_left}

grouped : int_of (codes " 1_000 ") ≡ some (whole 1000)
unfolding int_of signed digits strip
grouped = refl

below_zero : int_of (codes "-7") ≡ some (minus 7)
unfolding int_of signed digits strip
below_zero = refl

not_grouped : int_of (codes "1__0") ≡ none
unfolding int_of signed digits strip
not_grouped = refl

abbrev silent : Headers
silent = record { retry_after = none; ratelimit_reset = none; ratelimit_remaining = none }

abbrev spent : Headers
spent = record silent {
  retry_after = some (codes "soon");
  ratelimit_reset = some (codes "90");
  ratelimit_remaining = some (codes "0");
}

-- An unreadable Retry-After leaves it to X-RateLimit-Reset.
second_header : parse_reset_time 5 spent ≡ reset_at (micros (epoch + 90))
unfolding parse_reset_time read_epoch from_timestamp int_of signed digits strip
second_header = refl

far_away :
    parse_reset_time 5 (record silent { retry_after = some (codes "999999999999") }) ≡ overflow
unfolding parse_reset_time seconds_from int_of signed digits strip
far_away = refl

a_minute_later : attempt 5 (response 429 silent none) ≡ raised (rate_limit_reset (5 + micros 60))
unfolding attempt parse_reset_time read_epoch
a_minute_later = refl

-- No connection, then a 503, then a body.
abbrev answers : ℕ → ℕ × Response
answers zero = (10, unreachable)
answers (suc zero) = (20, response 503 silent none)
answers (suc (suc k)) = (30 + k, response 200 silent (some null))

transient_before : (j : ℕ) → j < 2 → is_transient (answers j).1 ≡ true
transient_before zero l = refl
transient_before (suc zero) l = refl
transient_before (suc (suc j)) l = absurd (omega arith)

get_settles_example : get plain_retrying 3 answers ≡ attempt 30 (response 200 silent (some null))
get_settles_example =
    get_settles plain_retrying 3 answers 2 (omega arith) transient_before (inl refl)

rate_all-halvings_example :
    rate_all (response 200 spent none ∷ response 429 spent none ∷ unreachable ∷ []) 100
    ≡ halvings
        (count_if says_none_left
          (response 200 spent none ∷ response 429 spent none ∷ unreachable ∷ []))
        100
rate_all-halvings_example =
    rate_all-halvings (response 200 spent none ∷ response 429 spent none ∷ unreachable ∷ []) 100
      (omega arith)

slowed : rate_all (response 200 spent none ∷ response 429 spent none ∷ unreachable ∷ []) 100 ≡ 25
unfolding rate_all rate_after adjust_limiter int_of signed digits strip
slowed = refl
