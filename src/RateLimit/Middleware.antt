-- ===== src/RateLimit/Middleware.antt =====
-- RateLimitMiddleware (meritmolt/ratelimit.py): one BucketStore per route group, and the decision
-- on a request.
pub mod Decisions
use meritmolt.Prelude.{ℕ, ◌*◌, ◌≡◌, Bool, not, List, [], Option, none, some, if◌then◌else◌}
use meritmolt.Text.{Text, codes, is_empty}
use meritmolt.Errors.{Result, ok, err, ◌>>=◌}
use meritmolt.Config.{Settings}
use meritmolt.RateLimit.Routes.{
  RouteGroup, auth_login, auth_refresh, writes, reads, exempt, classify, bucket_params,
}
use meritmolt.RateLimit.Bucket.{Answer, allowed, denied, nanoseconds, retry_after_header}
use meritmolt.RateLimit.Store.{BucketStore, Readings, acquire}
use meritmolt.RateLimit.Client.{Scope, KeyLibrary, extract_jwt_sub, client_ip, bearer_from_scope}

pub record Stores : Type 0 where
  pub of_auth_login : BucketStore
  pub of_auth_refresh : BucketStore
  pub of_writes : BucketStore
  pub of_reads : BucketStore

empty_store : Settings → BucketStore
empty_store settings = record {
  max_keys = settings.mm_rl_bucket_max_keys;
  ttl = settings.mm_rl_bucket_ttl_seconds * nanoseconds;
  order = [];
}

unfoldable pub build_stores : Settings → Stores
unfolding empty_store
build_stores settings = record {
  of_auth_login = empty_store settings;
  of_auth_refresh = empty_store settings;
  of_writes = empty_store settings;
  of_reads = empty_store settings;
}

-- What becomes of a request: it goes to the application, or it is answered with 429 and the
-- Retry-After header, or an error leaves the middleware.
pub data Outcome : Type 0 where
  passed : Outcome
  rate_limited : (retry_after : ℕ) → Outcome
  raised : Outcome

abbrev pub outcome_of : Answer → Outcome
outcome_of allowed = passed
outcome_of (denied num den) = rate_limited (retry_after_header num den)

-- `sub if sub else _extract_client_ip_from_scope(scope)`.
abbrev pub sub_or_ip : KeyLibrary → Scope → Option Text → Text
sub_or_ip lib scope none = client_ip lib scope
sub_or_ip lib scope (some sub) = if is_empty sub then client_ip lib scope else sub

-- The subject of the bearer token, where there is one that is not empty.
abbrev pub bearer_sub : KeyLibrary → Settings → Option Text → Result (Option Text)
bearer_sub lib settings none = ok none
bearer_sub lib settings (some bearer) =
    if is_empty bearer then ok none else extract_jwt_sub lib settings bearer

-- The key of a request, by its group.
unfoldable pub key_for : KeyLibrary → Settings → RouteGroup → Scope → Result Text
key_for lib settings auth_login scope = ok (client_ip lib scope)
key_for lib settings auth_refresh scope = ok (client_ip lib scope)
key_for lib settings writes scope = do
  sub ← bearer_sub lib settings (bearer_from_scope scope)
  ok (sub_or_ip lib scope sub)
key_for lib settings reads scope = do
  sub ← bearer_sub lib settings (bearer_from_scope scope)
  ok (sub_or_ip lib scope sub)
key_for lib settings exempt scope = ok (client_ip lib scope)

abbrev pub answered : Answer × BucketStore → (BucketStore → Stores) → Outcome × Stores
answered (answer, store) put = (outcome_of answer, put store)

-- The bucket of the key in the group's store decides.
unfoldable pub decide : Settings → RouteGroup → Text → Readings → Stores → Outcome × Stores
decide settings auth_login key r stores =
    let (burst, rate) = bucket_params auth_login settings in
    answered (acquire key burst rate r stores.of_auth_login)
      (λ s. record stores { of_auth_login = s })
decide settings auth_refresh key r stores =
    let (burst, rate) = bucket_params auth_refresh settings in
    answered (acquire key burst rate r stores.of_auth_refresh)
      (λ s. record stores { of_auth_refresh = s })
decide settings writes key r stores =
    let (burst, rate) = bucket_params writes settings in
    answered (acquire key burst rate r stores.of_writes) (λ s. record stores { of_writes = s })
decide settings reads key r stores =
    let (burst, rate) = bucket_params reads settings in
    answered (acquire key burst rate r stores.of_reads) (λ s. record stores { of_reads = s })
decide settings exempt key r stores = (passed, stores)

abbrev pub decide_for : Settings → RouteGroup → Result Text → Readings → Stores → Outcome × Stores
decide_for settings group (ok key) r stores = decide settings group key r stores
decide_for settings group (err e) r stores = (raised, stores)

-- `scope.get("path") or "/"`.
abbrev pub path_of : Scope → Text
path_of scope = if is_empty scope.path then codes "/" else scope.path

-- From the test of the group on.
unfoldable pub limit_group :
    KeyLibrary → Settings → RouteGroup → Scope → Readings → Stores → Outcome × Stores
limit_group lib settings exempt scope r stores = (passed, stores)
limit_group lib settings auth_login scope r stores =
    decide_for settings auth_login (key_for lib settings auth_login scope) r stores
limit_group lib settings auth_refresh scope r stores =
    decide_for settings auth_refresh (key_for lib settings auth_refresh scope) r stores
limit_group lib settings writes scope r stores =
    decide_for settings writes (key_for lib settings writes scope) r stores
limit_group lib settings reads scope r stores =
    decide_for settings reads (key_for lib settings reads scope) r stores

unfoldable pub limit : KeyLibrary → Settings → Scope → Readings → Stores → Outcome × Stores
limit lib settings scope r stores =
    if scope.is_http
    then limit_group lib settings (classify (path_of scope)) scope r stores
    else (passed, stores)
