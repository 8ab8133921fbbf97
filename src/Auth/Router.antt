-- ===== src/Auth/Router.antt =====
-- The auth endpoints: login, refresh, logout and me (meritmolt/auth/router.py), each as a request
-- with its own transaction.
pub mod Revocation
use meritmolt.Prelude.{
  ℕ, String, Bool, true, false, Option, none, some, List, [], ◌∷◌, ◌++◌, ◌==◌, find_if, keep_if,
  update_if, is_none, str_eq, if◌then◌else◌,
}
use meritmolt.Text.{Text, strip, is_empty}
use meritmolt.Errors.{Failure, http_exception, unhandled, Result, ok, err, or_raise}
use meritmolt.Config.{Settings}
use meritmolt.Json.{Json}
use meritmolt.Retrying.{Retrying}
use meritmolt.Auth.Tables.{MmAgent, Db}
use meritmolt.Auth.Session.{Session, pure, lift, gets, modify, ◌>>=◌, ◌>>◌, with_db_session}
use meritmolt.Auth.Tokens.{
  Library, Draw, Client, Readings, mint_refresh_token, rotate_refresh_token, revoke_token,
}
use meritmolt.Auth.Moltbook.{MbAgentInfo, Exception, Response, verify_identity}
use meritmolt.Auth.Jwt.{JwtLibrary, create_access_token, get_current_agent}

-- What all requests share: the libraries and the settings.
pub record World : Type 0 where
  pub lib : Library
  pub jwt : JwtLibrary
  pub tenacity : Retrying Exception MbAgentInfo
  pub render : Json → String
  pub settings : Settings

pub record TokenResponse : Type 0 where
  pub access_token : Text
  pub refresh_token : Text
  pub token_type : String
  pub expires_in : ℕ

pub record AgentInfo : Type 0 where
  pub id : ℕ
  pub mb_agent_id : String
  pub mb_name : String

-- The clock and uuid4 of the agent's INSERT, and of the access token.
pub record Stamp : Type 0 where
  pub now : ℕ
  pub fresh_id : ℕ

missing_identity : Failure
missing_identity = http_exception 401 "Missing X-Moltbook-Identity"

-- `_require_identity_header`.
unfoldable pub require_identity_header : Option Text → Result Text
unfolding missing_identity
require_identity_header none = err missing_identity
require_identity_header (some header) =
    let stripped = strip header in if is_empty stripped then err missing_identity else ok stripped

abbrev pub has_mb_id : String → MmAgent → Bool
has_mb_id mb_agent_id agent = str_eq agent.mb_agent_id mb_agent_id

-- INSERT into mm_agents, ON CONFLICT (mb_agent_id) DO UPDATE of the name and of last_seen_at. A new
-- row whose primary key is taken is an IntegrityError.
unfoldable pub upsert_agent : MbAgentInfo → Stamp → Session (Unit {0})
upsert_agent info stamp db =
    if is_none (find_if (has_mb_id info.agent_id) db.agents)
    then (if is_none (find_if (λ (a : MmAgent). a.id == stamp.fresh_id) db.agents)
        then (
          ok tt,
          record db {
            agents =
                db.agents
                ++ record {
                  id = stamp.fresh_id;
                  mb_agent_id = info.agent_id;
                  mb_name = info.name;
                  last_seen_at = stamp.now;
                  created_at = stamp.now;
                  updated_at = stamp.now;
                }
                  ∷ [];
          },
        )
        else (err unhandled, db))
    else (
      ok tt,
      record db {
        agents =
            update_if (has_mb_id info.agent_id)
              (λ (a : MmAgent). record a { mb_name = info.name; last_seen_at = stamp.now })
              db.agents;
      },
    )

-- `result.scalar_one()`: exactly one row, or an exception.
unfoldable pub scalar_one {ℓ} : {A : Type ℓ} → List A → Result A
scalar_one [] = err unhandled
scalar_one (a ∷ []) = ok a
scalar_one (a ∷ b ∷ rest) = err unhandled

unfoldable pub respond : World → Text → Text → TokenResponse
respond w access refresh = record {
  access_token = access;
  refresh_token = refresh;
  token_type = "bearer";
  expires_in = w.settings.mm_access_ttl_seconds;
}

-- The body of login, once the identity header and the session are there.
unfoldable pub login_body :
    World → (ℕ → Response) → Client → Stamp → Draw → Stamp → Session TokenResponse
unfolding respond
login_body w moltbook client stamp draw token = do
  info ← lift (verify_identity w.tenacity w.render w.settings moltbook)
  upsert_agent info stamp
  rows ← gets (λ (db : Db). keep_if (has_mb_id info.agent_id) db.agents)
  agent ← lift (scalar_one rows)
  refresh_raw ← mint_refresh_token w.lib w.settings agent.id client none draw
  access ← lift (create_access_token w.jwt w.settings agent token.now token.fresh_id)
  pure (respond w access refresh_raw)

unfoldable pub refresh_body :
    World → Text → Client → Readings → Draw → Stamp → Session TokenResponse
unfolding respond
refresh_body w raw client at draw token = do
  (new_raw, agent) ← rotate_refresh_token w.lib w.settings client at draw raw
  access ← lift (create_access_token w.jwt w.settings agent token.now token.fresh_id)
  pure (respond w access new_raw)

unfoldable pub me_body : World → Option Text → Session AgentInfo
me_body w authorization = do
  r ← gets (λ (db : Db). get_current_agent w.jwt w.settings authorization db)
  agent ← lift r
  pure (record { id = agent.id; mb_agent_id = agent.mb_agent_id; mb_name = agent.mb_name })

-- Whether init_db has run, and whether the database accepts the commit.
pub record Backend : Type 0 where
  pub initialised : Bool
  pub commits : Bool

abbrev in_session : {A : Type 0} → Backend → Session A → Session A
in_session backend = with_db_session backend.initialised backend.commits

-- POST /v1/auth/login: the identity header is required before the session is opened. MoltBook's
-- answers depend on the identity token.
unfoldable pub login :
    World
    → Backend
    → Option Text
    → (Text → ℕ → Response)
    → Client
    → Stamp
    → Draw
    → Stamp
    → Session TokenResponse
login w backend header moltbook client stamp draw token = do
  identity ← lift (require_identity_header header)
  in_session backend (login_body w (moltbook identity) client stamp draw token)

-- POST /v1/auth/refresh.
unfoldable pub refresh :
    World → Backend → Text → Client → Readings → Draw → Stamp → Session TokenResponse
refresh w backend raw client at draw token =
    in_session backend (refresh_body w raw client at draw token)

-- POST /v1/auth/logout.
unfoldable pub logout : World → Backend → Text → ℕ → Session (Unit {0})
logout w backend raw now = in_session backend (revoke_token w.lib now raw)

-- GET /v1/auth/me.
unfoldable pub me : World → Backend → Option Text → Session AgentInfo
me w backend authorization = in_session backend (me_body w authorization)

pub data AuthRequest : Type 0 where
  login_request : Option Text → (Text → ℕ → Response) → Client → Stamp → Draw → Stamp → AuthRequest
  refresh_request : Text → Client → Readings → Draw → Stamp → AuthRequest
  logout_request : Text → ℕ → AuthRequest
  me_request : Option Text → AuthRequest

-- The tables after a request, whatever its response.
unfoldable pub handle : World → Backend → AuthRequest → Db → Db
handle w backend (login_request header moltbook client stamp draw token) db =
    (login w backend header moltbook client stamp draw token db).1
handle w backend (refresh_request raw client at draw token) db =
    (refresh w backend raw client at draw token db).1
handle w backend (logout_request raw now) db = (logout w backend raw now db).1
handle w backend (me_request authorization) db = (me w backend authorization db).1

-- The tables after a history of requests.
unfoldable pub run : World → List (Backend × AuthRequest) → Db → Db
run w [] db = db
run w ((backend, request) ∷ rest) db = run w rest (handle w backend request db)
