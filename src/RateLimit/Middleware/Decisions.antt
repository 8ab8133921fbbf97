-- ===== src/RateLimit/Middleware/Decisions.antt =====
-- What the rate-limit middleware keeps, and whom it refuses (meritmolt/ratelimit.py).
use meritmolt.Prelude.{Bool, true, false, arith, Option, none, some, List, [], ◌∷◌, if◌then◌else◌}
use meritmolt.Text.{Text}
use meritmolt.Errors.{Result, ok, err}
use meritmolt.Config.{Settings}
use meritmolt.RateLimit.Routes.{
  RouteGroup, auth_login, auth_refresh, writes, reads, exempt, classify,
}
use meritmolt.RateLimit.Store.{BucketStore, Readings}
use meritmolt.RateLimit.Store.Bounds.{IsValid, acquire-IsValid}
use meritmolt.RateLimit.Client.{Scope, KeyLibrary}
use meritmolt.RateLimit.Middleware.{
  Stores, build_stores, passed, decide, decide_for, limit_group, limit, path_of,
}

pub record AllValid (stores : Stores) : Type 0 where
  pub login : IsValid stores.of_auth_login
  pub refresh : IsValid stores.of_auth_refresh
  pub write : IsValid stores.of_writes
  pub read : IsValid stores.of_reads

decide-AllValid :
    (settings : Settings) (group : RouteGroup) (key : Text) (r : Readings) (stores : Stores)
    → AllValid stores
    → AllValid (decide settings group key r stores).1
unfolding decide
decide-AllValid settings auth_login key r stores v = record {
  login = acquire-IsValid key _ _ r stores.of_auth_login v.login;
  refresh = v.refresh;
  write = v.write;
  read = v.read;
}
decide-AllValid settings auth_refresh key r stores v = record {
  login = v.login;
  refresh = acquire-IsValid key _ _ r stores.of_auth_refresh v.refresh;
  write = v.write;
  read = v.read;
}
decide-AllValid settings writes key r stores v = record {
  login = v.login;
  refresh = v.refresh;
  write = acquire-IsValid key _ _ r stores.of_writes v.write;
  read = v.read;
}
decide-AllValid settings reads key r stores v = record {
  login = v.login;
  refresh = v.refresh;
  write = v.write;
  read = acquire-IsValid key _ _ r stores.of_reads v.read;
}
decide-AllValid settings exempt key r stores v = v

decide_for-AllValid :
    (settings : Settings) (group : RouteGroup) (key : Result Text) (r : Readings) (stores : Stores)
    → AllValid stores
    → AllValid (decide_for settings group key r stores).1
decide_for-AllValid settings group (ok key) r stores v =
    decide-AllValid settings group key r stores v
decide_for-AllValid settings group (err e) r stores v = v

limit_group-AllValid :
    (lib : KeyLibrary) (settings : Settings) (group : RouteGroup) (scope : Scope) (r : Readings)
    (stores : Stores)
    → AllValid stores
    → AllValid (limit_group lib settings group scope r stores).1
unfolding limit_group
limit_group-AllValid lib settings exempt scope r stores v = v
limit_group-AllValid lib settings auth_login scope r stores v =
    decide_for-AllValid settings auth_login _ r stores v
limit_group-AllValid lib settings auth_refresh scope r stores v =
    decide_for-AllValid settings auth_refresh _ r stores v
limit_group-AllValid lib settings writes scope r stores v =
    decide_for-AllValid settings writes _ r stores v
limit_group-AllValid lib settings reads scope r stores v =
    decide_for-AllValid settings reads _ r stores v

limit-AllValid :
    (lib : KeyLibrary) (settings : Settings) (scope : Scope) (r : Readings) (stores : Stores)
    → AllValid stores
    → AllValid (limit lib settings scope r stores).1
unfolding limit
limit-AllValid lib settings scope r stores v = by_scheme scope.is_http
  where
    by_scheme :
        (is_http : Bool)
        → AllValid
            (if is_http
              then limit_group lib settings (classify (path_of scope)) scope r stores
              else (passed, stores)).1
    by_scheme true = limit_group-AllValid lib settings (classify (path_of scope)) scope r stores v
    by_scheme false = v

-- The requests in order.
unfoldable pub limit_all : KeyLibrary → Settings → List (Scope × Readings) → Stores → Stores
limit_all lib settings [] stores = stores
limit_all lib settings ((scope, r) ∷ rest) stores =
    limit_all lib settings rest (limit lib settings scope r stores).1

limit_all_from :
    (lib : KeyLibrary) (settings : Settings) (history : List (Scope × Readings)) (stores : Stores)
    → AllValid stores
    → AllValid (limit_all lib settings history stores)
unfolding limit_all
limit_all_from lib settings [] stores v = v
limit_all_from lib settings ((scope, r) ∷ rest) stores v =
    limit_all_from lib settings rest (limit lib settings scope r stores).1
      (limit-AllValid lib settings scope r stores v)

-- After every history of requests to a new middleware, each group's store has at most max_keys
-- buckets (one, when max_keys is 0), and one bucket per key.
pub limit_all-AllValid :
    (lib : KeyLibrary) (settings : Settings) (history : List (Scope × Readings))
    → AllValid (limit_all lib settings history (build_stores settings))
limit_all-AllValid lib settings history =
    limit_all_from lib settings history (build_stores settings) (
      unfold build_stores in
      record {
        login = record { bounded = omega arith; keys = tt };
        refresh = record { bounded = omega arith; keys = tt };
        write = record { bounded = omega arith; keys = tt };
        read = record { bounded = omega arith; keys = tt };
      })

-- The store of a group.
unfoldable pub store_of : RouteGroup → Stores → Option BucketStore
store_of auth_login stores = some stores.of_auth_login
store_of auth_refresh stores = some stores.of_auth_refresh
store_of writes stores = some stores.of_writes
store_of reads stores = some stores.of_reads
store_of exempt stores = none
