-- ===== src/Tests/RateLimit.antt =====
-- The rate limiter on concrete requests (meritmolt/ratelimit.py).
use meritmolt.Prelude.{ℕ, ◌+◌, ◌-◌, ◌*◌, ◌≡◌, ◌≢◌, ◌≤◌, refl, arith, some, List, [], ◌∷◌}
use meritmolt.Text.{Text, codes, same_text}
use meritmolt.RateLimit.Routes.{auth_refresh, reads, classify}
use meritmolt.RateLimit.Bucket.{TokenBucket, new_bucket, token, acquire_all, try_acquire}
use meritmolt.RateLimit.Bucket.Rate.{acquire_all-new_bucket}
use meritmolt.RateLimit.Store.{Entry, BucketStore, Readings, acquire}
use meritmolt.RateLimit.Store.Bounds.{entry_of, acquire_hit}
use meritmolt.RateLimit.Client.{Scope, extract_jwt_sub}
use meritmolt.RateLimit.Client.Agreement.{extract_jwt_sub-agrees, subject_of}
use meritmolt.RateLimit.Middleware.{build_stores}
use meritmolt.RateLimit.Middleware.Decisions.{limit_all, AllValid, limit_all-AllValid}
use meritmolt.Auth.Jwt.{decode_access_token}
use meritmolt.Tests.Fixtures.{key_lib, some_jwt, some_settings, get_scope}

classify_reads : classify (codes "/v1/users/7/scores") ≡ reads
unfolding classify same_text meritmolt.Text.has_prefix
classify_reads = refl

classify_unknown_auth : classify (codes "/v1/auth/unknown") ≡ auth_refresh
unfolding classify same_text meritmolt.Text.has_prefix
classify_unknown_auth = refl

abbrev times : List ℕ
times = 5 ∷ 6 ∷ 7 ∷ []

acquire_all-new_bucket_example :
    (acquire_all times (new_bucket 2 60 5)).0 * token ≤ 2 * token + (9 - 5) * 60
acquire_all-new_bucket_example =
    acquire_all-new_bucket 2 60 5 times 9 (omega arith, (omega arith, (omega arith, omega arith)))

-- A bucket for one token a minute, empty at time 0.
abbrev empty_bucket : TokenBucket
empty_bucket = record { max_tokens = token; refill_rate = 60; tokens = 0; last_refill = 0 }

abbrev here : Entry
here = record { key = codes "1.2.3.4"; bucket = empty_bucket; created = 0 }

abbrev small_store : BucketStore
small_store = record { max_keys = 2; ttl = 3600; order = here ∷ [] }

abbrev at_ten : Readings
at_ten = record { looked = 10; made = 10; taken = 10 }

here_found : entry_of (codes "1.2.3.4") small_store ≡ some here
unfolding same_text
here_found = refl

acquire_hit_example :
    ((acquire (codes "1.2.3.4") 1 60 at_ten small_store).0 ≡ (try_acquire 10 empty_bucket).0)
    × (entry_of (codes "1.2.3.4") (acquire (codes "1.2.3.4") 1 60 at_ten small_store).1
        ≡ some (record here { bucket = (try_acquire 10 empty_bucket).1 }))
    × ((other : Text)
        → other ≢ codes "1.2.3.4"
        → entry_of other (acquire (codes "1.2.3.4") 1 60 at_ten small_store).1
          ≡ entry_of other small_store)
acquire_hit_example =
    acquire_hit (codes "1.2.3.4") 1 60 at_ten small_store here here_found (omega arith)

abbrev login_scope : Scope
login_scope = get_scope (codes "/v1/auth/login")

limit_all-AllValid_example :
    AllValid
      (limit_all key_lib some_settings ((login_scope, at_ten) ∷ []) (build_stores some_settings))
limit_all-AllValid_example = limit_all-AllValid key_lib some_settings ((login_scope, at_ten) ∷ [])

extract_jwt_sub-agrees_example :
    extract_jwt_sub key_lib some_settings (codes "jwt")
    ≡ subject_of key_lib (decode_access_token some_jwt some_settings (codes "jwt"))
extract_jwt_sub-agrees_example =
    extract_jwt_sub-agrees key_lib some_settings (codes "jwt") (λ e. absurd (cc))
