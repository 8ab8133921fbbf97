-- ===== src/Auth/Tables.antt =====
-- The tables mm_agents and mm_refresh_tokens (meritmolt/database.py), as lists of rows in the order
-- of their insertion. A time is a number of microseconds, a UUID its 128-bit number.
pub use meritmolt.Text.{Text, Bytes}
use meritmolt.Prelude.{
  ℕ, ◌*◌, String, Bool, ◌&&◌, Option, true, not, List, [], Distinct, find_if, ◌==◌, ltb, is_none,
  none, some, true,
}

abbrev pub seconds : ℕ → ℕ
seconds n = n * 1000000

pub record MmAgent : Type 0 where
  pub id : ℕ
  pub mb_agent_id : String
  pub mb_name : String
  pub last_seen_at : ℕ
  pub created_at : ℕ
  pub updated_at : ℕ

pub record MmRefreshToken : Type 0 where
  pub id : ℕ
  pub agent_id : ℕ
  pub token_hash : String
  pub created_at : ℕ
  pub expires_at : ℕ
  pub revoked_at : Option ℕ
  pub rotated_from_id : Option ℕ
  pub user_agent : Option String
  pub ip : Option String

pub record Db : Type 0 where
  pub agents : List MmAgent
  pub tokens : List MmRefreshToken

abbrev pub empty_db : Db
empty_db = record { agents = []; tokens = [] }

abbrev pub has_id : ℕ → MmRefreshToken → Bool
has_id token_id row = row.id == token_id

-- `agent_id == … AND revoked_at IS NULL`.
abbrev pub is_unrevoked : ℕ → MmRefreshToken → Bool
is_unrevoked agent_id row = row.agent_id == agent_id && is_none row.revoked_at

-- `agent_id == … AND revoked_at IS NULL AND expires_at > now`.
abbrev pub is_active : ℕ → ℕ → MmRefreshToken → Bool
is_active agent_id now row = is_unrevoked agent_id row && ltb now row.expires_at

-- The primary key: no two rows of the table share an id.
abbrev pub KeysDiffer : List MmRefreshToken → Type 0
KeysDiffer = Distinct (λ (row : MmRefreshToken). row.id)

abbrev pub agent_exists : ℕ → List MmAgent → Bool
agent_exists agent_id agents = not (is_none (find_if (λ (a : MmAgent). a.id == agent_id) agents))

-- The foreign key rotated_from_id, which may be NULL.
abbrev pub predecessor_exists : Option ℕ → List MmRefreshToken → Bool
predecessor_exists none rows = true
predecessor_exists (some token_id) rows = not (is_none (find_if (has_id token_id) rows))
