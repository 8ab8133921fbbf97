-- ===== src/Backpressure/Middleware.antt =====
-- BackpressureMiddleware (meritmolt/backpressure.py): the request id and the answer to a request,
-- from what try_acquire and the application come to.
use meritmolt.Prelude.{ℕ, ◌≤◌, min, Bool, true, false, Option, none, some, arith, if◌then◌else◌}
use meritmolt.Text.{Text, codes, is_empty}
use meritmolt.Config.{Settings}
use meritmolt.RateLimit.Routes.{
  RouteGroup, auth_login, auth_refresh, writes, reads, exempt, classify,
}
use meritmolt.RateLimit.Bucket.{retry_after_header}
use meritmolt.RateLimit.Client.{Scope, find_header}
use meritmolt.RateLimit.Middleware.{path_of}

abbrev header_or : Text → Option Text → Text
header_or fresh none = fresh
header_or fresh (some value) = if is_empty value then fresh else value

-- `_get_request_id_from_scope`; `fresh` is the uuid4.
unfoldable pub request_id : Text → Scope → Text
request_id fresh scope = header_or fresh (find_header (codes "x-request-id") scope.headers)

-- How the call of the application ends: it returns, it raises, or it raises TimeoutError or is
-- stopped by wait_for.
pub data End : Type 0 where
  returned raised timed_out : End

-- What the client gets: what the application sent, or a 503 with the body's retry_after and the
-- Retry-After header, or an exception.
pub data Reply : Type 0 where
  forwarded : Reply
  unavailable : (error : Text) (retry_after header : ℕ) → Reply
  failed : Reply

unfoldable pub overloaded : Reply
overloaded = unavailable (codes "overloaded") 60 (retry_after_header 60 1)

unfoldable pub deadline_exceeded : Settings → Reply
deadline_exceeded settings =
    unavailable (codes "deadline_exceeded") (min 60 settings.mm_bp_request_deadline_seconds)
      (retry_after_header settings.mm_bp_request_deadline_seconds 1)

abbrev pub reply_other : End → Reply
reply_other returned = forwarded
reply_other raised = failed
reply_other timed_out = failed

-- Only reads have a deadline.
unfoldable pub reply_end : Settings → RouteGroup → End → Reply
reply_end settings reads returned = forwarded
reply_end settings reads raised = failed
reply_end settings reads timed_out = deadline_exceeded settings
reply_end settings auth_login e = reply_other e
reply_end settings auth_refresh e = reply_other e
reply_end settings writes e = reply_other e
reply_end settings exempt e = reply_other e

unfoldable pub reply : Settings → Scope → Bool → End → Reply
reply settings scope acquired e =
    if scope.is_http
    then (if acquired then reply_end settings (classify (path_of scope)) e else overloaded)
    else reply_other e

-- A 503 asks for a wait of at least a second, and its header for no shorter wait than its body.
abbrev pub Polite : Reply → Type 0
Polite forwarded = Unit
Polite failed = Unit
Polite (unavailable error retry_after header) = (1 ≤ header) × (retry_after ≤ header)

reply_other-Polite : (e : End) → Polite (reply_other e)
reply_other-Polite returned = tt
reply_other-Polite raised = tt
reply_other-Polite timed_out = tt

deadline-Polite : (settings : Settings) → Polite (deadline_exceeded settings)
unfolding deadline_exceeded retry_after_header
deadline-Polite settings = (omega arith, omega arith)

reply_end-Polite :
    (settings : Settings) (group : RouteGroup) (e : End) → Polite (reply_end settings group e)
unfolding reply_end
reply_end-Polite settings reads returned = tt
reply_end-Polite settings reads raised = tt
reply_end-Polite settings reads timed_out = deadline-Polite settings
reply_end-Polite settings auth_login e = reply_other-Polite e
reply_end-Polite settings auth_refresh e = reply_other-Polite e
reply_end-Polite settings writes e = reply_other-Polite e
reply_end-Polite settings exempt e = reply_other-Polite e

-- Whatever the group, the semaphores and the application do, a 503 of the middleware has a
-- Retry-After header of at least one second and at least the retry_after of its body.
reply-Polite :
    (settings : Settings) (scope : Scope) (acquired : Bool) (e : End)
    → Polite (reply settings scope acquired e)
unfolding reply overloaded retry_after_header
reply-Polite settings scope acquired e = by_scheme scope.is_http acquired
  where
    by_scheme :
        (is_http acquired : Bool)
        → Polite (
            if is_http
            then (if acquired then reply_end settings (classify (path_of scope)) e else overloaded)
            else reply_other e)
    by_scheme true true = reply_end-Polite settings (classify (path_of scope)) e
    by_scheme true false = (omega arith, omega arith)
    by_scheme false acquired = reply_other-Polite e
