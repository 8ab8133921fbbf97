-- ===== src/Auth/Tokens.antt =====
-- Refresh tokens: mint, rotate, revoke and reuse detection (meritmolt/auth/tokens.py).
pub mod Mint
pub mod Limit
pub mod Spent
pub mod Fresh
pub mod Rotation
use meritmolt.Prelude.{
  ℕ, ◌+◌, ◌&&◌, String, Bool, true, false, Option, none, some, List, [], ◌∷◌, ◌++◌, count_if,
  find_if, update_if, ltb, leb, ◌==◌, is_none, if◌then◌else◌,
}
use meritmolt.Errors.{Failure, http_exception, unhandled, Result, ok, err, or_raise}
use meritmolt.Config.{Settings}
use meritmolt.Auth.Tables.{
  Text, Bytes, seconds, MmAgent, MmRefreshToken, Db, has_id, is_unrevoked, is_active, agent_exists,
  predecessor_exists,
}
use meritmolt.Auth.Session.{Session, pure, raise, lift, gets, modify, ◌>>=◌, ◌>>◌}
use meritmolt.Auth.RawToken.{parse_raw_token, raw_token}

-- What `PasswordHasher.verify` does: it returns, or raises VerifyMismatchError, or raises some
-- other error.
pub data Verdict : Type 0 where
  match mismatch broken : Verdict

-- The libraries that the component calls: argon2 (the first argument of `hash` is the salt), and
-- what uuid.UUID makes of a text that is not 32 hexadecimal digits.
pub record Library : Type 0 where
  pub hash : ℕ → Bytes → String
  pub verify : String → Bytes → Verdict
  pub loose_uuid : Text → Option ℕ

-- What one call of mint_refresh_token takes from the clock, uuid4, urandom and the hasher's salt.
pub record Draw : Type 0 where
  pub now : ℕ
  pub token_id : ℕ
  pub secret : Bytes
  pub salt : ℕ

-- What the request says of the client.
pub record Client : Type 0 where
  pub user_agent : Option String
  pub ip : Option String

-- `order_by(created_at.asc()).limit(1)` among the rows that pass a test; the earlier row wins a tie.
older : MmRefreshToken → Option MmRefreshToken → MmRefreshToken
older row none = row
older row (some other) = if leb row.created_at other.created_at then row else other

unfoldable pub oldest : (MmRefreshToken → Bool) → List MmRefreshToken → Option MmRefreshToken
unfolding older
oldest p [] = none
oldest p (row ∷ rows) = if p row then some (older row (oldest p rows)) else oldest p rows

unfoldable pub revoke : ℕ → MmRefreshToken → MmRefreshToken
revoke at row = record row { revoked_at = some at }

-- Revoke the given row, if there is one: `row.revoked_at = now` and a flush.
unfoldable pub revoke_row : ℕ → Option MmRefreshToken → List MmRefreshToken → List MmRefreshToken
unfolding revoke
revoke_row now none rows = rows
revoke_row now (some row) rows = update_if (has_id row.id) (revoke now) rows

-- The part of mint_refresh_token that makes room: at the limit, revoke the oldest token.
unfoldable pub make_room : ℕ → ℕ → ℕ → List MmRefreshToken → List MmRefreshToken
make_room limit agent_id now rows =
    if leb limit (count_if (is_active agent_id now) rows)
    then revoke_row now (oldest (is_unrevoked agent_id) rows) rows
    else rows

-- The INSERT: it fails on a key that is taken, and on an agent or a predecessor that is missing.
unfoldable pub insert_token : MmRefreshToken → Session (Unit {0})
insert_token row db =
    if is_none (find_if (has_id row.id) db.tokens)
    then (if agent_exists row.agent_id db.agents
          && predecessor_exists row.rotated_from_id (db.tokens ++ row ∷ [])
        then (ok tt, record db { tokens = db.tokens ++ row ∷ [] })
        else (err unhandled, db))
    else (err unhandled, db)

unfoldable pub new_row : Library → Settings → ℕ → Client → Option ℕ → Draw → MmRefreshToken
new_row lib settings agent_id client rotated_from_id draw = record {
  id = draw.token_id;
  agent_id = agent_id;
  token_hash = lib.hash draw.salt draw.secret;
  created_at = draw.now;
  expires_at = draw.now + seconds settings.mm_refresh_ttl_seconds;
  revoked_at = none;
  rotated_from_id = rotated_from_id;
  user_agent = client.user_agent;
  ip = client.ip;
}

unfoldable pub mint_refresh_token : Library → Settings → ℕ → Client → Option ℕ → Draw → Session Text
mint_refresh_token lib settings agent_id client rotated_from_id draw = do
  modify (λ (db : Db). record db {
    tokens = make_room settings.mm_refresh_max_active_per_agent agent_id draw.now db.tokens;
  })
  insert_token (new_row lib settings agent_id client rotated_from_id draw)
  pure (raw_token draw.token_id draw.secret)

unfoldable pub revoke_all_agent_tokens : ℕ → ℕ → Session (Unit {0})
unfolding revoke
revoke_all_agent_tokens now agent_id =
    modify
      (λ (db : Db). record db { tokens = update_if (is_unrevoked agent_id) (revoke now) db.tokens })

-- The errors of rotate_refresh_token.
abbrev pub invalid_format : Failure
invalid_format = http_exception 401 "Invalid refresh token format"

abbrev pub invalid_token : Failure
invalid_token = http_exception 401 "Invalid refresh token"

abbrev pub token_reused : Failure
token_reused =
    http_exception 401 "Refresh token reused; all sessions revoked. Re-login via MoltBook."

abbrev pub token_expired : Failure
token_expired = http_exception 401 "Refresh token expired"

abbrev pub agent_not_found : Failure
agent_not_found = http_exception 401 "Agent not found"

-- `_verify_secret`: only VerifyMismatchError is caught.
unfoldable pub verify_secret : Library → String → Bytes → Result Bool
verify_secret lib hash secret = elim (lib.verify hash secret) [
  | match ↦ ok true
  | mismatch ↦ ok false
  | broken ↦ err unhandled
]

-- The clock readings of rotate_refresh_token: before the expiry test and at the revocation (or for
-- revoke_all_agent_tokens). The third, at the mint, is in the draw.
pub record Readings : Type 0 where
  pub checked : ℕ
  pub revoked : ℕ

abbrev pub check_expiry : ℕ → MmRefreshToken → Result (Unit {0})
check_expiry now row = if leb row.expires_at now then err token_expired else ok tt

abbrev pub check_secret : Bool → Result (Unit {0})
check_secret true = ok tt
check_secret false = err invalid_token

-- From the reuse test on: revoke the current token, load the agent, mint the successor.
unfoldable pub rotate_row :
    Library
    → Settings
    → Client
    → Readings
    → Draw
    → ℕ
    → Bytes
    → MmRefreshToken
    → Session (Text × MmAgent)
rotate_row lib settings client at draw token_id secret row = do
  lift (check_expiry at.checked row)
  verified ← lift (verify_secret lib row.token_hash secret)
  lift (check_secret verified)
  modify
      (λ (db : Db). record db { tokens = update_if (has_id row.id) (revoke at.revoked) db.tokens })
  agents ← gets (λ (db : Db). db.agents)
  agent ← lift (or_raise (find_if (λ (a : MmAgent). a.id == row.agent_id) agents) agent_not_found)
  new_raw ← mint_refresh_token lib settings row.agent_id client (some token_id) draw
  pure (new_raw, agent)

-- The branch of a token that is revoked already.
unfoldable pub reuse_detected : ℕ → MmRefreshToken → Session (Text × MmAgent)
reuse_detected now row = do revoke_all_agent_tokens now row.agent_id; raise token_reused

unfoldable pub rotate_found :
    Library
    → Settings
    → Client
    → Readings
    → Draw
    → ℕ
    → Bytes
    → MmRefreshToken
    → Session (Text × MmAgent)
rotate_found lib settings client at draw token_id secret row =
    if is_none row.revoked_at
    then rotate_row lib settings client at draw token_id secret row
    else reuse_detected at.revoked row

unfoldable pub rotate_parsed :
    Library → Settings → Client → Readings → Draw → ℕ × Bytes → Session (Text × MmAgent)
rotate_parsed lib settings client at draw (token_id, secret) = do
  rows ← gets (λ (db : Db). db.tokens)
  row ← lift (or_raise (find_if (has_id token_id) rows) invalid_token)
  rotate_found lib settings client at draw token_id secret row

unfoldable pub rotate_refresh_token :
    Library → Settings → Client → Readings → Draw → Text → Session (Text × MmAgent)
rotate_refresh_token lib settings client at draw raw = do
  parsed ← lift (or_raise (parse_raw_token lib.loose_uuid raw) invalid_format)
  rotate_parsed lib settings client at draw parsed

-- revoke_token: the row of the id is revoked, if it is there and not revoked yet. The secret is
-- parsed and not looked at.
unfoldable pub revoke_parsed : ℕ → Option (ℕ × Bytes) → Session (Unit {0})
unfolding revoke
revoke_parsed now none = pure tt
revoke_parsed now (some (token_id, secret)) = modify (λ (db : Db). record db {
  tokens =
      update_if (λ (row : MmRefreshToken). has_id token_id row && is_none row.revoked_at)
        (revoke now) db.tokens;
})

unfoldable pub revoke_token : Library → ℕ → Text → Session (Unit {0})
revoke_token lib now raw = revoke_parsed now (parse_raw_token lib.loose_uuid raw)
