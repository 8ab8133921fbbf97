-- ===== src/Config.antt =====
-- meritmolt/config.py: the settings that the modelled code reads. The integers are natural
-- numbers here, and the request deadline is in whole seconds.
use meritmolt.Prelude.{ℕ, String, Bool, Option, none, some, List, [], ◌∷◌, str_eq, if◌then◌else◌}

-- A `dict[str, str]` in the order of its entries.
abbrev pub Keys : Type 0
Keys = List (String × String)

abbrev pub lookup_key : String → Keys → Option String
lookup_key kid [] = none
lookup_key kid ((k, pem) ∷ keys) = if str_eq k kid then some pem else lookup_key kid keys

pub record Settings : Type 0 where
  pub mm_moltbook_app_key : Option String
  pub mm_jwt_private_keys : Keys
  pub mm_jwt_public_keys : Keys
  pub mm_access_ttl_seconds : ℕ
  pub mm_refresh_ttl_seconds : ℕ
  pub mm_refresh_max_active_per_agent : ℕ
  pub mm_use_sqlite_for_tests : Bool
  pub mm_meritrank_init_on_startup : Bool
  pub mm_rl_auth_login_limit : ℕ
  pub mm_rl_auth_refresh_limit : ℕ
  pub mm_rl_writes_burst : ℕ
  pub mm_rl_writes_sustain : ℕ
  pub mm_rl_reads_burst : ℕ
  pub mm_rl_reads_sustain : ℕ
  pub mm_rl_bucket_max_keys : ℕ
  pub mm_rl_bucket_ttl_seconds : ℕ
  pub mm_bp_global_max_concurrent : ℕ
  pub mm_bp_reads_max_concurrent : ℕ
  pub mm_bp_writes_max_concurrent : ℕ
  pub mm_bp_auth_max_concurrent : ℕ
  pub mm_bp_request_deadline_seconds : ℕ
