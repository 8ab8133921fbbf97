-- ===== src/Auth/Router/Revocation.antt =====
-- A refresh token that is revoked is never good again, and what a detected reuse leaves behind
-- (meritmolt/auth/router.py with meritmolt/auth/dependencies.py).
use meritmolt.Prelude.{
  ℕ, ◌≡◌, refl, ap, sym, subst, ◌∙◌, inl, inr, Bool, true, Option, none, some, List, [], ◌∷◌, arith,
  Bool-cases, update_if, is_none, find_if, find_if_holds,
}
use meritmolt.Text.{Text, Bytes}
use meritmolt.Errors.{Result, ok, err}
use meritmolt.Auth.Tables.{Db, MmRefreshToken, MmAgent, has_id}
use meritmolt.Auth.Session.{
  Session, with_db_session, ◌>>=◌, >>=-ok, lift, pure, modify, with_db_session-ok, Keeps,
  keeps_rules,
}
use meritmolt.Auth.Moltbook.{MbAgentInfo, Response}
use meritmolt.Auth.RawToken.{parse_raw_token}
use meritmolt.Auth.Tokens.Spent.{is_spent, is_spent-update, is_spent-mint, is_spent-once}
use meritmolt.Auth.Tokens.Rotation.{spent_refused, rotate_ok}
use meritmolt.Auth.Tokens.{
  Client, Readings, Draw, mint_refresh_token, rotate_refresh_token, rotate_parsed, rotate_row,
  rotate_found, reuse_detected, revoke_all_agent_tokens, revoke_token, revoke_parsed, token_reused,
  revoke,
}
use meritmolt.Auth.Jwt.{create_access_token}
use meritmolt.Auth.Router.{
  respond, World, Backend, Stamp, TokenResponse, AuthRequest, login_request, refresh_request,
  logout_request, me_request, refresh, refresh_body, login, login_body, logout, me, me_body, handle,
  run, upsert_agent,
}

-- Presenting a token that is revoked is answered with the reuse error, and the request's rollback
-- leaves both tables as they were: no session of the agent is revoked.
pub reuse_rolled_back :
    (w : World) (backend : Backend) (raw : Text) (token_id : ℕ) (secret : Bytes) (client : Client)
    (at : Readings) (draw : Draw) (token : Stamp) (db : Db)
    → backend.initialised ≡ true
    → parse_raw_token w.lib.loose_uuid raw ≡ some (token_id, secret)
    → is_spent token_id db.tokens ≡ true
    → refresh w backend raw client at draw token db ≡ (err token_reused, db)
unfolding refresh with_db_session refresh_body
reuse_rolled_back w backend raw token_id secret client at draw token db up parsed spent =
    let refused =
      spent_refused w.lib w.settings client at draw raw token_id secret db parsed spent in
    rw (up, with_db_session) (rw refused)

-- The tables hold the id, with a token that is revoked.
abbrev pub Spent : ℕ → Db → Type 0
Spent token_id db = is_spent token_id db.tokens ≡ true

module _ (w : World) (i : ℕ) where
  mint-Spent :
      (agent_id : ℕ) (client : Client) (from : Option ℕ) (draw : Draw)
      → Keeps (Spent i) (mint_refresh_token w.lib w.settings agent_id client from draw)
  mint-Spent agent_id client from draw = record {
    at = λ db h. is_spent-mint w.lib w.settings agent_id client from draw db i h;
  }

  upsert_agent-Spent :
      (info : MbAgentInfo) (stamp : Stamp) → Keeps (Spent i) (upsert_agent info stamp)
  unfolding upsert_agent
  upsert_agent-Spent info stamp = record { at = λ db h. ground arith }

  login_body-Spent :
      (moltbook : ℕ → Response) (client : Client) (stamp : Stamp) (draw : Draw) (token : Stamp)
      → Keeps (Spent i) (login_body w moltbook client stamp draw token)
  unfolding login_body
  login_body-Spent moltbook client stamp draw token =
      search (keeps_rules, upsert_agent-Spent, mint-Spent) depth 12

  revoke_rows-Spent :
      (q : MmRefreshToken → Bool) (at : ℕ)
      → Keeps
          (Spent i)
          (modify (λ (db : Db). record db { tokens = update_if q (revoke at) db.tokens }))
  revoke_rows-Spent q at = record { at = λ db h. is_spent-update i db.tokens h q at }

  reuse_detected-Spent : (now : ℕ) (row : MmRefreshToken) → Keeps (Spent i) (reuse_detected now row)
  unfolding reuse_detected revoke_all_agent_tokens
  reuse_detected-Spent now row = search (keeps_rules, revoke_rows-Spent)

  rotate_row-Spent :
      (client : Client) (at : Readings) (draw : Draw) (token_id : ℕ) (secret : Bytes)
      (row : MmRefreshToken)
      → Keeps (Spent i) (rotate_row w.lib w.settings client at draw token_id secret row)
  unfolding rotate_row
  rotate_row-Spent client at draw token_id secret row =
      search (keeps_rules, revoke_rows-Spent, mint-Spent) depth 16

  rotate_found-Spent :
      (client : Client) (at : Readings) (draw : Draw) (token_id : ℕ) (secret : Bytes)
      (row : MmRefreshToken)
      → Keeps (Spent i) (rotate_found w.lib w.settings client at draw token_id secret row)
  unfolding rotate_found
  rotate_found-Spent client at draw token_id secret row =
      elim (Bool-cases (is_none row.revoked_at)) [
        | inl t ↦ rw t (rotate_row-Spent client at draw token_id secret row)
        | inr f ↦ rw f (reuse_detected-Spent at.revoked row)
      ]

  rotate_parsed-Spent :
      (client : Client) (at : Readings) (draw : Draw) (parsed : ℕ × Bytes)
      → Keeps (Spent i) (rotate_parsed w.lib w.settings client at draw parsed)
  unfolding rotate_parsed
  rotate_parsed-Spent client at draw (token_id, secret) =
      search (keeps_rules, rotate_found-Spent) depth 8

  refresh_body-Spent :
      (raw : Text) (client : Client) (at : Readings) (draw : Draw) (token : Stamp)
      → Keeps (Spent i) (refresh_body w raw client at draw token)
  unfolding refresh_body rotate_refresh_token
  refresh_body-Spent raw client at draw token = search (keeps_rules, rotate_parsed-Spent) depth 12

  revoke_parsed-Spent :
      (now : ℕ) (parsed : Option (ℕ × Bytes)) → Keeps (Spent i) (revoke_parsed now parsed)
  unfolding revoke_parsed
  revoke_parsed-Spent now none = search keeps_rules
  revoke_parsed-Spent now (some (token_id, secret)) = search revoke_rows-Spent

  handle-Spent :
      (backend : Backend) (request : AuthRequest) (db : Db)
      → Spent i db
      → Spent i (handle w backend request db)
  unfolding handle
  handle-Spent backend (login_request header moltbook client stamp draw token) db h =
      let k : Keeps (Spent i) (login w backend header moltbook client stamp draw token) =
        unfold login in search (keeps_rules, login_body-Spent) depth 6 in
      k.at db h
  handle-Spent backend (refresh_request raw client at draw token) db h =
      let k : Keeps (Spent i) (refresh w backend raw client at draw token) =
        unfold refresh in search (keeps_rules, refresh_body-Spent) in
      k.at db h
  handle-Spent backend (logout_request raw now) db h =
      let k : Keeps (Spent i) (logout w backend raw now) =
        unfold logout revoke_token in search (keeps_rules, revoke_parsed-Spent) in
      k.at db h
  handle-Spent backend (me_request authorization) db h =
      let k : Keeps (Spent i) (me w backend authorization) =
        unfold me me_body in search keeps_rules depth 8 in
      k.at db h

  -- A token that is revoked stays revoked through every history of requests, whichever of them fail.
  pub run-Spent :
      (history : List (Backend × AuthRequest)) (db : Db) → Spent i db → Spent i (run w history db)
  unfolding run
  run-Spent [] db h = h
  run-Spent ((backend, request) ∷ rest) db h =
      run-Spent rest (handle w backend request db) (handle-Spent backend request db h)

-- After any history of requests a token that is revoked is answered with the reuse error.
revoked_forever :
    (w : World) (raw : Text) (token_id : ℕ) (secret : Bytes) (db : Db)
    (history : List (Backend × AuthRequest)) (backend : Backend) (client : Client) (at : Readings)
    (draw : Draw) (token : Stamp)
    → parse_raw_token w.lib.loose_uuid raw ≡ some (token_id, secret)
    → Spent token_id db
    → backend.initialised ≡ true
    → (refresh w backend raw client at draw token (run w history db)).0 ≡ err token_reused
revoked_forever w raw token_id secret db history backend client at draw token parsed spent up =
    ap (λ r. r.0)
      (reuse_rolled_back w backend raw token_id secret client at draw token (run w history db) up
        parsed (run-Spent w token_id history db spent))

answer_state :
    (r : Result Text) (f : Text → TokenResponse) (s : Db)
    → ((lift r >>= λ access. pure (f access)) s).1 ≡ s
answer_state (ok access) f s = refl
answer_state (err e) f s = refl

refresh-Spent :
    (w : World) (backend : Backend) (raw : Text) (client : Client) (at : Readings) (draw : Draw)
    (token : Stamp) (db : Db) (reply : TokenResponse)
    → (refresh w backend raw client at draw token db).0 ≡ ok reply
    → backend.commits ≡ true
    → (token_id : ℕ) × (secret : Bytes) × (parse_raw_token w.lib.loose_uuid raw
        ≡ some (token_id, secret))
      × Spent token_id (refresh w backend raw client at draw token db).1
unfolding refresh refresh_body
refresh-Spent w backend raw client at draw token db reply h committed =
    let (up, body, state) =
      with_db_session-ok backend.initialised backend.commits
        (refresh_body w raw client at draw token) db reply h committed in
    let ((new_raw, agent), rotated, rest) =
      >>=-ok (rotate_refresh_token w.lib w.settings client at draw raw) (answer) db reply body in
    let (token_id, secret, row, facts) =
      rotate_ok w.lib w.settings client at draw raw db new_raw agent rotated in
    (
      token_id,
      secret,
      facts.0,
      subst (Spent token_id)
          (sym (
            state
            ∙ ap (λ r. r.1) rest
            ∙ answer_state (create_access_token w.jwt w.settings agent token.now token.fresh_id)
                (λ access. respond w access new_raw)
                (rotate_refresh_token w.lib w.settings client at draw raw db).1))
          facts.7,
    )
  where
    answer : Text × MmAgent → Session TokenResponse
    answer (new_raw, agent) = do
      access ← lift (create_access_token w.jwt w.settings agent token.now token.fresh_id)
      pure (respond w access new_raw)

-- A refresh token that was exchanged once, in a request whose commit the database accepted, is never
-- exchanged again: after any further history of requests, one after the other, presenting it is answered with
-- the reuse error.
pub refresh_once :
    (w : World) (backend : Backend) (raw : Text) (client : Client) (at : Readings) (draw : Draw)
    (token : Stamp) (db : Db) (reply : TokenResponse)
    → (refresh w backend raw client at draw token db).0 ≡ ok reply
    → backend.commits ≡ true
    → (history : List (Backend × AuthRequest)) (backend' : Backend) (client' : Client)
      (at' : Readings) (draw' : Draw) (token' : Stamp)
    → backend'.initialised ≡ true
    → (refresh w backend' raw client' at' draw' token'
        (run w history (refresh w backend raw client at draw token db).1)).0
      ≡ err token_reused
refresh_once w backend raw client at draw token db reply h committed history backend' client' at'
      draw' token' up =
    let (token_id, secret, parsed, spent) =
      refresh-Spent w backend raw client at draw token db reply h committed in
    revoked_forever w raw token_id secret _ history backend' client' at' draw' token' parsed spent
      up

logout-Spent :
    (w : World) (backend : Backend) (raw : Text) (token_id : ℕ) (secret : Bytes) (now : ℕ) (db : Db)
    (row : MmRefreshToken)
    → parse_raw_token w.lib.loose_uuid raw ≡ some (token_id, secret)
    → find_if (has_id token_id) db.tokens ≡ some row
    → backend.initialised ≡ true
    → backend.commits ≡ true
    → Spent token_id (logout w backend raw now db).1
unfolding logout with_db_session revoke_token revoke_parsed
logout-Spent w backend raw token_id secret now db row parsed found up committed =
    rw (up, committed, parsed)
      (is_spent-once token_id now db.tokens row found
        (find_if_holds (has_id token_id) db.tokens row found))

-- A refresh token that the table holds, once its logout was committed, is never exchanged
-- again: after any further history of requests, one after the other, presenting it, with whatever
-- secret, is answered with the reuse error.
pub logged_out_refused :
    (w : World) (backend : Backend) (raw raw' : Text) (token_id : ℕ) (secret secret' : Bytes)
    (now : ℕ) (db : Db) (row : MmRefreshToken)
    → parse_raw_token w.lib.loose_uuid raw ≡ some (token_id, secret)
    → parse_raw_token w.lib.loose_uuid raw' ≡ some (token_id, secret')
    → find_if (has_id token_id) db.tokens ≡ some row
    → backend.initialised ≡ true
    → backend.commits ≡ true
    → (history : List (Backend × AuthRequest)) (backend' : Backend) (client : Client)
      (at : Readings) (draw : Draw) (token : Stamp)
    → backend'.initialised ≡ true
    → (refresh w backend' raw' client at draw token
        (run w history (logout w backend raw now db).1)).0
      ≡ err token_reused
logged_out_refused w backend raw raw' token_id secret secret' now db row parsed parsed' found up
      committed history backend' client at draw token up' =
    revoked_forever w raw' token_id secret' _ history backend' client at draw token parsed'
      (logout-Spent w backend raw token_id secret now db row parsed found up committed) up'
