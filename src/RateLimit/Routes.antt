-- ===== src/RateLimit/Routes.antt =====
-- RouteGroup and _get_bucket_params (meritmolt/ratelimit.py).
use meritmolt.Prelude.{ℕ, ◌*◌, ◌||◌, if◌then◌else◌}
use meritmolt.Text.{Text, codes, same_text, has_prefix}
use meritmolt.Config.{Settings}

pub data RouteGroup : Type 0 where
  auth_login auth_refresh writes reads exempt : RouteGroup

unfoldable pub classify : Text → RouteGroup
classify path =
    if same_text path (codes "/")
      || same_text path (codes "/health")
      || same_text path (codes "/db")
    then exempt
    else if same_text path (codes "/v1/auth/login")
    then auth_login
    else if same_text path (codes "/v1/auth/refresh") || same_text path (codes "/v1/auth/logout")
    then auth_refresh
    else if same_text path (codes "/v1/auth/me") || has_prefix (codes "/v1/users/") path
    then reads
    else if has_prefix (codes "/v1/events/") path
    then writes
    else if has_prefix (codes "/v1/auth/") path
    then auth_refresh
    else exempt

-- The burst in tokens and the refill rate in tokens per hour.
unfoldable pub bucket_params : RouteGroup → Settings → ℕ × ℕ
bucket_params auth_login settings =
    (settings.mm_rl_auth_login_limit, settings.mm_rl_auth_login_limit)
bucket_params auth_refresh settings =
    (settings.mm_rl_auth_refresh_limit, settings.mm_rl_auth_refresh_limit * 60)
bucket_params writes settings = (settings.mm_rl_writes_burst, settings.mm_rl_writes_sustain * 60)
bucket_params reads settings = (settings.mm_rl_reads_burst, settings.mm_rl_reads_sustain * 60)
bucket_params exempt settings = (0, 0)
