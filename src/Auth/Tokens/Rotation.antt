-- ===== src/Auth/Tokens/Rotation.antt =====
-- Rotation and reuse detection (rotate_refresh_token of meritmolt/auth/tokens.py).
use meritmolt.Prelude.{
  ℕ, ◌<◌, ◌≡◌, ◌≢◌, refl, ap, ◌∙◌, ◌⊎◌, inl, inr, true, false, not, none, some, arith, Bool-cases,
  Option-cases, find_if, update_if, count_if, find_if-append_none, count_if-update_none,
  count_if-update_same, leb, ◌==◌, is_none,
}
use meritmolt.Errors.{ok, err}
use meritmolt.Config.{Settings}
use meritmolt.Auth.Tables.{Text, Bytes, MmAgent, MmRefreshToken, Db, has_id, is_unrevoked}
use meritmolt.Auth.Session.{Session, ◌>>=◌, >>=-ok, pure}
use meritmolt.Auth.RawToken.{parse_raw_token, raw_token}
use meritmolt.Auth.Tokens.Mint.{mint_outcome}
use meritmolt.Auth.Tokens.Spent.{is_spent, is_spent-found, is_spent-mint}
use meritmolt.Auth.Tokens.{
  Library, Verdict, match, mismatch, broken, Draw, Client, Readings, revoke, new_row, verify_secret,
  mint_refresh_token, rotate_row, rotate_found, rotate_parsed, rotate_refresh_token, reuse_detected,
  revoke_all_agent_tokens, token_reused,
}

Verdict-cases : (v : Verdict) → (v ≡ match) ⊎ ((v ≡ mismatch) ⊎ (v ≡ broken))
Verdict-cases match = inl refl
Verdict-cases mismatch = inr (inl refl)
Verdict-cases broken = inr (inr refl)

module _ (lib : Library) (settings : Settings) (client : Client) (at : Readings) (draw : Draw) where
  module _ (token_id : ℕ) (secret : Bytes) (row : MmRefreshToken) (db : Db) where
    -- The tables once the current token is revoked.
    abbrev pub rotating : Db
    rotating = record db { tokens = update_if (has_id row.id) (revoke at.revoked) db.tokens }

    -- What a rotation that succeeds has checked, and that it ends with the mint.
    abbrev Rotates : Text → MmAgent → Type 0
    Rotates new_raw agent =
        (at.checked < row.expires_at)
        × (lib.verify row.token_hash secret ≡ match)
        × (find_if (λ (a : MmAgent). a.id == row.agent_id) db.agents ≡ some agent)
        × ((mint_refresh_token lib settings row.agent_id client (some token_id) draw rotating).0
            ≡ ok new_raw)
        × ((rotate_row lib settings client at draw token_id secret row db).1
            ≡ (mint_refresh_token lib settings row.agent_id client (some token_id) draw rotating).1)

    abbrev pub finish_rotation : MmAgent → Text → Session (Text × MmAgent)
    finish_rotation agent new_raw = pure (new_raw, agent)

    pub rotate_row_steps :
        (agent : MmAgent)
        → leb row.expires_at at.checked ≡ false
        → lib.verify row.token_hash secret ≡ match
        → find_if (λ (a : MmAgent). a.id == row.agent_id) db.agents ≡ some agent
        → rotate_row lib settings client at draw token_id secret row db
          ≡ (mint_refresh_token lib settings row.agent_id client (some token_id) draw
                >>= finish_rotation agent)
              rotating
    unfolding rotate_row
    rotate_row_steps agent early good found =
        let verified : verify_secret lib row.token_hash secret ≡ ok true =
          unfold verify_secret in ground (arith, good) in
        rw (early, verified, found)

    rotate_row_ok :
        (new_raw : Text) (agent : MmAgent)
        → (rotate_row lib settings client at draw token_id secret row db).0 ≡ ok (new_raw, agent)
        → Rotates new_raw agent
    unfolding rotate_row verify_secret
    rotate_row_ok new_raw agent h = elim (Bool-cases (leb row.expires_at at.checked)) [
      | inl late ↦ absurd (ground (arith, h, late))
      | inr early ↦ elim (Verdict-cases (lib.verify row.token_hash secret)) [
        | inr refused ↦ absurd (ground (arith, h, early, refused))
        | inl good ↦
            elim (Option-cases (find_if (λ (a : MmAgent). a.id == row.agent_id) db.agents)) [
              | inl missing ↦ absurd (ground (arith, h, early, good, missing))
              | inr (a, e) ↦
                  let steps = rotate_row_steps a early good e in
                  let (raw, minted, last) =
                    >>=-ok
                      (mint_refresh_token lib settings row.agent_id client (some token_id) draw)
                      (finish_rotation a) rotating (new_raw, agent) (rw steps at h) in
                  let ends : (raw ≡ new_raw) × (a ≡ agent) =
                    ground (arith, ap (λ r. r.0) last, rw steps at h) in
                  (
                    ground arith,
                    good,
                    e ∙ ap some ends.1,
                    minted ∙ ap ok ends.0,
                    ap (λ r. r.1) (steps ∙ last),
                  )
            ]
      ]
    ]

  module _ (raw : Text) (token_id : ℕ) (secret : Bytes) (row : MmRefreshToken) (db : Db) where
    -- Presenting a token that is revoked raises the reuse error, and in the transaction's view leaves
    -- its agent no token unrevoked and every other agent as many as before.
    pub reuse_revokes_all :
        parse_raw_token lib.loose_uuid raw ≡ some (token_id, secret)
        → find_if (has_id token_id) db.tokens ≡ some row
        → is_none row.revoked_at ≡ false
        → let after = rotate_refresh_token lib settings client at draw raw db in
          (after.0 ≡ err token_reused)
          × (count_if (is_unrevoked row.agent_id) after.1.tokens ≡ 0)
          × ((other : ℕ)
              → other ≢ row.agent_id
              → count_if (is_unrevoked other) after.1.tokens
                ≡ count_if (is_unrevoked other) db.tokens)
    unfolding rotate_refresh_token rotate_parsed rotate_found reuse_detected revoke_all_agent_tokens
    reuse_revokes_all parsed found revoked =
        rw (parsed, found, revoked)
          (
            refl,
            count_if-update_none (is_unrevoked row.agent_id) (revoke at.revoked) db.tokens
                (λ r. unfold revoke in ground arith),
            λ other distinct.
                count_if-update_same (is_unrevoked other) (is_unrevoked row.agent_id)
                  (revoke at.revoked) db.tokens
                  (λ r h. unfold revoke in ground (arith, distinct, h)),
          )

  -- A token whose row is revoked is refused, with the reuse error.
  pub spent_refused :
      (raw : Text) (token_id : ℕ) (secret : Bytes) (db : Db)
      → parse_raw_token lib.loose_uuid raw ≡ some (token_id, secret)
      → is_spent token_id db.tokens ≡ true
      → (rotate_refresh_token lib settings client at draw raw db).0 ≡ err token_reused
  unfolding is_spent
  spent_refused raw token_id secret db parsed spent =
      elim (Option-cases (find_if (has_id token_id) db.tokens)) [
        | inl e ↦ absurd (let f : false ≡ true = rw e at spent in cc)
        | inr (r, e) ↦
            (reuse_revokes_all raw token_id secret r db parsed e
              (let f : not (is_none r.revoked_at) ≡ true = rw e at spent in ground arith)).0
      ]

  -- What a successful rotation guarantees of the token that was presented and of the two tables.
  abbrev pub Rotated : Text → Db → Text → MmAgent → Db → ℕ → Bytes → MmRefreshToken → Type 0
  Rotated raw db new_raw agent after token_id secret row =
      (parse_raw_token lib.loose_uuid raw ≡ some (token_id, secret))
      × (find_if (has_id token_id) db.tokens ≡ some row)
      × (row.revoked_at ≡ none)
      × (at.checked < row.expires_at)
      × (lib.verify row.token_hash secret ≡ match)
      × (find_if (λ (a : MmAgent). a.id == row.agent_id) db.agents ≡ some agent)
      × (new_raw ≡ raw_token draw.token_id draw.secret)
      × (is_spent token_id after.tokens ≡ true)
      × (find_if (has_id draw.token_id) after.tokens
          ≡ some (new_row lib settings row.agent_id client (some token_id) draw))

  pub rotate_to_row :
      (raw : Text) (token_id : ℕ) (secret : Bytes) (row : MmRefreshToken) (db : Db)
      → parse_raw_token lib.loose_uuid raw ≡ some (token_id, secret)
      → find_if (has_id token_id) db.tokens ≡ some row
      → row.revoked_at ≡ none
      → rotate_refresh_token lib settings client at draw raw db
        ≡ rotate_row lib settings client at draw token_id secret row db
  unfolding rotate_refresh_token rotate_parsed rotate_found
  rotate_to_row raw token_id secret row db parsed found fresh = rw (parsed, found, fresh)

  rotate_parsed_ok :
      (raw : Text) (db : Db) (new_raw : Text) (agent : MmAgent) (token_id : ℕ) (secret : Bytes)
      (row : MmRefreshToken)
      → parse_raw_token lib.loose_uuid raw ≡ some (token_id, secret)
      → find_if (has_id token_id) db.tokens ≡ some row
      → row.revoked_at ≡ none
      → (rotate_row lib settings client at draw token_id secret row db).0 ≡ ok (new_raw, agent)
      → Rotated raw db new_raw agent
          (rotate_row lib settings client at draw token_id secret row db).1
          token_id
          secret
          row
  rotate_parsed_ok raw db new_raw agent token_id secret row parsed found fresh h =
      let (early, good, owner, mint, last) = rotate_row_ok token_id secret row db new_raw agent h in
      elim (mint_outcome lib settings row.agent_id client (some token_id) draw
        (rotating token_id secret row db)) [
          | inl (failed, _) ↦ absurd (cc)
          | inr (made, table, free, _) ↦ (
            parsed,
            found,
            fresh,
            early,
            good,
            owner,
            ground (arith, made, mint),
            rw last (
                is_spent-mint lib settings row.agent_id client (some token_id) draw
                  (rotating token_id secret row db) token_id
                  (is_spent-found token_id at.revoked db.tokens row found)),
            rw (last, table, find_if-append_none (has_id draw.token_id) _ _ free)
                (unfold new_row in ground arith),
          )
        ]

  -- A rotation that succeeds was asked for with a token that is known, neither revoked nor expired,
  -- and whose secret verifies; afterwards that token is revoked, and the new token's row, linked to
  -- it and of the same agent, is in the table.
  pub rotate_ok :
      (raw : Text) (db : Db) (new_raw : Text) (agent : MmAgent)
      → (rotate_refresh_token lib settings client at draw raw db).0 ≡ ok (new_raw, agent)
      → (token_id : ℕ) × (secret : Bytes) × (row : MmRefreshToken) × Rotated raw db new_raw agent
          (rotate_refresh_token lib settings client at draw raw db).1
          token_id
          secret
          row
  rotate_ok raw db new_raw agent h = elim (Option-cases (parse_raw_token lib.loose_uuid raw)) [
    | inl e ↦ absurd (unfold rotate_refresh_token in ground (arith, h, e))
    | inr ((token_id, secret), parsed) ↦ elim (Option-cases (find_if (has_id token_id) db.tokens)) [
      | inl e ↦ absurd (unfold rotate_refresh_token rotate_parsed in ground (arith, h, e, parsed))
      | inr (row, found) ↦ elim (Option-cases row.revoked_at) [
        | inr (t, e) ↦
            let refused = reuse_revokes_all raw token_id secret row db parsed found (rw e) in
            absurd (ground (arith, refused.0, h))
        | inl fresh ↦
            let steps = rotate_to_row raw token_id secret row db parsed found fresh in
            let done =
              rotate_parsed_ok raw db new_raw agent token_id secret row parsed found fresh
                (rw steps at h) in
            (token_id, secret, row, rw steps done)
      ]
    ]
  ]
