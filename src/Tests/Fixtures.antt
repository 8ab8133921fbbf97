-- ===== src/Tests/Fixtures.antt =====
-- Libraries, settings and tables for the tests.
use meritmolt.Prelude.{
  str_eq, if◌then◌else◌, ℕ, zero, suc, ◌≡◌, refl, arith, All, ap, String, true, false, Option, none,
  some, List, [], ◌∷◌,
}
use meritmolt.Text.{Text, Bytes, codes}
use meritmolt.Json.{text}
use meritmolt.Config.{Settings}
use meritmolt.Retrying.{plain_retrying}
use meritmolt.Auth.Tables.{MmAgent, MmRefreshToken, Db}
use meritmolt.Auth.Base64.Roundtrip.{IsByte}
use meritmolt.Auth.Tokens.{Library, match, Draw, Client, Readings}
use meritmolt.Auth.Jwt.{JwtLibrary, header, payload, invalid}
use meritmolt.Auth.Router.{World, Backend, Stamp}
use meritmolt.RateLimit.Client.{KeyLibrary, Scope}

abbrev pub unary : ℕ → String
unary zero = ""
unary (suc n) = String.◌∷◌ "a" (unary n)

abbrev pub letters : String → ℕ
letters String.[] = 0
letters (String.◌∷◌ c s) = suc (letters s)

pub letters-unary : (n : ℕ) → letters (unary n) ≡ n
letters-unary zero = refl
letters-unary (suc n) = ap suc (letters-unary n)

abbrev pub some_lib : Library
some_lib = record {
  hash = λ salt secret. "hash";
  verify = λ hash secret. match;
  loose_uuid = λ t. none;
}

abbrev pub some_jwt : JwtLibrary
some_jwt = record {
  encode = λ claims pem algorithm kid. codes kid;
  unverified_header = λ t. header (some "k1");
  decode = λ t pem options.
      if str_eq options.audience "meritmolt-api" then payload (text "aaaaaaa") else invalid;
  uuid_str = unary;
  read_uuid = λ s. some (letters s);
  read-uuid_str = λ n. ap some (letters-unary n);
}

abbrev pub some_settings : Settings
some_settings = record {
  mm_moltbook_app_key = some "app";
  mm_jwt_private_keys = ("k1", "private") ∷ [];
  mm_jwt_public_keys = ("k1", "public") ∷ [];
  mm_access_ttl_seconds = 900;
  mm_refresh_ttl_seconds = 2592000;
  mm_refresh_max_active_per_agent = 2;
  mm_use_sqlite_for_tests = true;
  mm_meritrank_init_on_startup = false;
  mm_rl_auth_login_limit = 30;
  mm_rl_auth_refresh_limit = 10;
  mm_rl_writes_burst = 20;
  mm_rl_writes_sustain = 60;
  mm_rl_reads_burst = 60;
  mm_rl_reads_sustain = 300;
  mm_rl_bucket_max_keys = 2;
  mm_rl_bucket_ttl_seconds = 3600;
  mm_bp_global_max_concurrent = 3;
  mm_bp_reads_max_concurrent = 2;
  mm_bp_writes_max_concurrent = 1;
  mm_bp_auth_max_concurrent = 1;
  mm_bp_request_deadline_seconds = 10;
}

abbrev pub some_world : World
some_world = record {
  lib = some_lib;
  jwt = some_jwt;
  tenacity = plain_retrying;
  render = λ j. "json";
  settings = some_settings;
}

abbrev pub up : Backend
up = record { initialised = true; commits = true }

abbrev pub ones : ℕ → Bytes
ones zero = []
ones (suc n) = 1 ∷ ones n

abbrev pub draw_of : ℕ → ℕ → Draw
draw_of now id = record { now = now; token_id = id; secret = ones 32; salt = 0 }

pub ones-bytes : (n : ℕ) → All IsByte (ones n)
ones-bytes zero = tt
ones-bytes (suc n) = (omega arith, ones-bytes n)

abbrev pub nobody : Client
nobody = record { user_agent = none; ip = none }

abbrev pub readings : ℕ → Readings
readings t = record { checked = t; revoked = t }

abbrev pub stamp : ℕ → Stamp
stamp t = record { now = t; fresh_id = 9 }

abbrev pub ann : MmAgent
ann = record {
  id = 7;
  mb_agent_id = "mb7";
  mb_name = "Ann";
  last_seen_at = 0;
  created_at = 0;
  updated_at = 0;
}

abbrev pub token_row : ℕ → ℕ → Option ℕ → MmRefreshToken
token_row id expires revoked = record {
  id = id;
  agent_id = 7;
  token_hash = "hash";
  created_at = id;
  expires_at = expires;
  revoked_at = revoked;
  rotated_from_id = none;
  user_agent = none;
  ip = none;
}

abbrev pub db_with : List MmRefreshToken → Db
db_with rows = record { agents = ann ∷ []; tokens = rows }

abbrev pub key_lib : KeyLibrary
key_lib = record { jwt = some_jwt; render = λ j. "json"; is_ip_address = λ t. true }

abbrev pub get_scope : Text → Scope
get_scope path = record {
  is_http = true;
  path = path;
  headers = (codes "X-Forwarded-For", codes "1.2.3.4, 5.6.7.8") ∷ [];
  client = none;
}
