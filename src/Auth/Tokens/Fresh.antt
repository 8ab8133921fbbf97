-- ===== src/Auth/Tokens/Fresh.antt =====
-- When mint_refresh_token and rotate_refresh_token succeed (meritmolt/auth/tokens.py).
use meritmolt.Prelude.{
  ℕ, ◌+◌, ◌^◌, ◌<◌, ◌≤◌, ◌≡◌, refl, ap, ◌∙◌, inl, inr, Bool, Option, none, some, List, arith,
  Bool-cases, find_if, update_if, count_if, length, All, find_if-append, ◌++◌, ◌∷◌, [], true,
  if◌then◌else◌, find_if-update_if, find_if-append_none, leb, ◌==◌,
}
use meritmolt.Errors.{ok}
use meritmolt.Config.{Settings}
use meritmolt.Auth.Tables.{
  Text, Bytes, seconds, MmAgent, MmRefreshToken, Db, has_id, is_unrevoked, is_active,
  predecessor_exists,
}
use meritmolt.Auth.Base64.Roundtrip.{IsByte}
use meritmolt.Auth.RawToken.{parse_raw_token, raw_token}
use meritmolt.Auth.RawToken.Roundtrip.{parse-raw_token}
use meritmolt.Auth.Tokens.Mint.{mint_outcome}
use meritmolt.Auth.Tokens.Spent.{has_id-revoke}
use meritmolt.Auth.Tokens.Rotation.{rotating, rotate_to_row, rotate_row_steps}
use meritmolt.Auth.Tokens.{
  Library, match, Draw, Client, Readings, oldest, revoke, revoke_row, make_room, insert_token,
  new_row, mint_refresh_token, rotate_refresh_token,
}

module _ (i : ℕ) (rows : List MmRefreshToken) (h : find_if (has_id i) rows ≡ none) where
  unused-update :
      (q : MmRefreshToken → Bool) (at : ℕ)
      → find_if (has_id i) (update_if q (revoke at) rows) ≡ none
  unused-update q at = rw (find_if-update_if (has_id i) q (revoke at) rows (has_id-revoke i at), h)

  unused-revoke_row :
      (at : ℕ) (o : Option MmRefreshToken) → find_if (has_id i) (revoke_row at o rows) ≡ none
  unfolding revoke_row
  unused-revoke_row at none = h
  unused-revoke_row at (some row) = unused-update (has_id row.id) at

  unused-make_room :
      (limit agent_id now : ℕ) → find_if (has_id i) (make_room limit agent_id now rows) ≡ none
  unfolding make_room
  unused-make_room limit agent_id now =
      elim (Bool-cases (leb limit (count_if (is_active agent_id now) rows))) [
        | inl t ↦ rw t (unused-revoke_row now (oldest (is_unrevoked agent_id) rows))
        | inr f ↦ rw f h
      ]

-- A row that is there stays there when rows are revoked and added.
module _ (i : ℕ) (row : MmRefreshToken) (rows : List MmRefreshToken)
    (h : find_if (has_id i) rows ≡ some row) where
  known-update :
      (q : MmRefreshToken → Bool) (at : ℕ)
      → (kept : MmRefreshToken) × (find_if (has_id i) (update_if q (revoke at) rows) ≡ some kept)
  known-update q at = (
    if q row then revoke at row else row,
    rw (find_if-update_if (has_id i) q (revoke at) rows (has_id-revoke i at), h) refl,
  )

  known-revoke_row :
      (at : ℕ) (o : Option MmRefreshToken)
      → (kept : MmRefreshToken) × (find_if (has_id i) (revoke_row at o rows) ≡ some kept)
  unfolding revoke_row
  known-revoke_row at none = (row, h)
  known-revoke_row at (some x) = known-update (has_id x.id) at

  known-make_room :
      (limit agent_id now : ℕ)
      → (kept : MmRefreshToken) × (find_if (has_id i) (make_room limit agent_id now rows)
          ≡ some kept)
  unfolding make_room
  known-make_room limit agent_id now =
      elim (Bool-cases (leb limit (count_if (is_active agent_id now) rows))) [
        | inl t ↦ rw t (known-revoke_row now (oldest (is_unrevoked agent_id) rows))
        | inr f ↦ rw f (row, h)
      ]

  known_after-make_room :
      (limit agent_id now : ℕ) (minted : MmRefreshToken)
      → predecessor_exists (some i) (make_room limit agent_id now rows ++ minted ∷ []) ≡ true
  known_after-make_room limit agent_id now minted =
      let (kept, e) = known-make_room limit agent_id now in
      rw (find_if-append (has_id i) (make_room limit agent_id now rows) (minted ∷ []) kept e) refl

module _ (lib : Library) (settings : Settings) (client : Client) where
  -- Minting succeeds for an agent and a predecessor that exist, under an id that is not in use.
  mint_succeeds :
      (agent_id : ℕ) (from : Option ℕ) (draw : Draw) (db : Db) (agent : MmAgent)
      → find_if (λ (a : MmAgent). a.id == agent_id) db.agents ≡ some agent
      → find_if (has_id draw.token_id) db.tokens ≡ none
      → predecessor_exists from (
          make_room settings.mm_refresh_max_active_per_agent agent_id draw.now db.tokens
          ++ new_row lib settings agent_id client from draw ∷ [])
        ≡ true
      → (mint_refresh_token lib settings agent_id client from draw db).0
        ≡ ok (raw_token draw.token_id draw.secret)
  unfolding mint_refresh_token insert_token new_row
  mint_succeeds agent_id from draw db agent owner free known = rw (
    unused-make_room draw.token_id db.tokens free settings.mm_refresh_max_active_per_agent agent_id
        draw.now,
    owner,
    known,
  )

  -- A token that was minted under an id not in use before is found under its id.
  minted_found :
      (agent_id : ℕ) (from : Option ℕ) (draw : Draw) (db : Db) (raw : Text)
      → (mint_refresh_token lib settings agent_id client from draw db).0 ≡ ok raw
      → (raw ≡ raw_token draw.token_id draw.secret)
        × (find_if
              (has_id draw.token_id)
              (mint_refresh_token lib settings agent_id client from draw db).1.tokens
            ≡ some (new_row lib settings agent_id client from draw))
  minted_found agent_id from draw db raw h =
      elim (mint_outcome lib settings agent_id client from draw db) [
        | inl (failed, _) ↦ absurd (cc)
        | inr (made, table, free, _) ↦ (
          ground (arith, made, h),
          rw (table, find_if-append_none (has_id draw.token_id) _ _ free)
              (unfold new_row in ground arith),
        )
      ]

-- Minting changes no agent.
mint_agents :
    (lib : Library) (settings : Settings) (client : Client) (agent_id : ℕ) (from : Option ℕ)
    (draw : Draw) (db : Db)
    → (mint_refresh_token lib settings agent_id client from draw db).1.agents ≡ db.agents
mint_agents lib settings client agent_id from draw db =
    elim (mint_outcome lib settings agent_id client from draw db) [
      | inl (_, e) ↦ rw e
      | inr (_, e, _, _) ↦ rw e
    ]

-- A rotation succeeds where all its checks pass.
rotate_succeeds :
    (lib : Library) (settings : Settings) (client : Client) (at : Readings) (draw : Draw)
    (raw : Text) (token_id : ℕ) (secret : Bytes) (row : MmRefreshToken) (agent : MmAgent) (db : Db)
    → parse_raw_token lib.loose_uuid raw ≡ some (token_id, secret)
    → find_if (has_id token_id) db.tokens ≡ some row
    → row.revoked_at ≡ none
    → at.checked < row.expires_at
    → lib.verify row.token_hash secret ≡ match
    → find_if (λ (a : MmAgent). a.id == row.agent_id) db.agents ≡ some agent
    → find_if (has_id draw.token_id) db.tokens ≡ none
    → (rotate_refresh_token lib settings client at draw raw db).0
      ≡ ok (raw_token draw.token_id draw.secret, agent)
rotate_succeeds lib settings client at draw raw token_id secret row agent db parsed found fresh
      early good owner free =
    ap (λ r. r.0)
      (rotate_to_row lib settings client at draw raw token_id secret row db parsed found fresh
        ∙ rotate_row_steps lib settings client at draw token_id secret row db agent (ground arith)
            good owner)
    ∙ rw (
        mint_succeeds lib settings client row.agent_id (some token_id) draw
          (rotating lib settings client at draw token_id secret row db) agent owner
          (unused-update draw.token_id db.tokens free (has_id row.id) at.revoked)
          (let (kept, e) = known-update token_id row db.tokens found (has_id row.id) at.revoked in
            known_after-make_room token_id kept _ e settings.mm_refresh_max_active_per_agent
              row.agent_id draw.now
              (new_row lib settings row.agent_id client (some token_id) draw)))

-- A token fresh from mint_refresh_token can be exchanged before it expires: from the table that the
-- mint left, the rotation returns a new token and the agent. The hasher accepts the secrets that it
-- hashed, the ids and secrets are of their sizes, the agent exists, and the second id is not in use.
pub mint_then_rotate :
    (lib : Library) (settings : Settings) (agent_id : ℕ) (client : Client) (from : Option ℕ)
    (draw : Draw) (db : Db) (raw : Text) (agent : MmAgent) (settings' : Settings) (client' : Client)
    (at' : Readings) (draw' : Draw)
    → ((salt : ℕ) (secret : Bytes) → lib.verify (lib.hash salt secret) secret ≡ match)
    → draw.token_id < 2 ^ 128
    → All IsByte draw.secret
    → 32 ≤ length draw.secret
    → find_if (λ (a : MmAgent). a.id == agent_id) db.agents ≡ some agent
    → (mint_refresh_token lib settings agent_id client from draw db).0 ≡ ok raw
    → let after = (mint_refresh_token lib settings agent_id client from draw db).1 in
      find_if (has_id draw'.token_id) after.tokens ≡ none
      → at'.checked < draw.now + seconds settings.mm_refresh_ttl_seconds
      → (rotate_refresh_token lib settings' client' at' draw' raw after).0
        ≡ ok (raw_token draw'.token_id draw'.secret, agent)
mint_then_rotate lib settings agent_id client from draw db raw agent settings' client' at' draw' law
      small bytes long owner h free early =
    let (named, found) = minted_found lib settings client agent_id from draw db raw h in
    let parsed : parse_raw_token lib.loose_uuid raw ≡ some (draw.token_id, draw.secret) =
      rw named (parse-raw_token lib.loose_uuid draw.token_id draw.secret small bytes long) in
    rotate_succeeds lib settings' client' at' draw' raw draw.token_id draw.secret
      (new_row lib settings agent_id client from draw) agent _ parsed found (unfold new_row in refl)
      (unfold new_row in early) (unfold new_row in law draw.salt draw.secret)
      (rw (mint_agents lib settings client agent_id from draw db) (unfold new_row in owner)) free
