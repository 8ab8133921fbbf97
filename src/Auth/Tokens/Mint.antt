-- ===== src/Auth/Tokens/Mint.antt =====
-- The two outcomes of mint_refresh_token (meritmolt/auth/tokens.py).
use meritmolt.Prelude.{
  ℕ, ◌≡◌, true, ◌⊎◌, inl, inr, Option, none, [], ◌∷◌, ◌++◌, Bool-cases, and_parts, ◌&&◌,
  Option-cases, find_if,
}
use meritmolt.Errors.{unhandled, ok, err}
use meritmolt.Config.{Settings}
use meritmolt.Auth.Tables.{MmRefreshToken, Db, has_id, agent_exists, predecessor_exists}
use meritmolt.Auth.RawToken.{raw_token}
use meritmolt.Auth.Tokens.{
  Library, Draw, Client, make_room, insert_token, new_row, mint_refresh_token,
}

module _ (row : MmRefreshToken) (db : Db) where
  insert_outcome :
      ((insert_token row db).0 ≡ err unhandled) × ((insert_token row db).1 ≡ db)
      ⊎ (((insert_token row db).0 ≡ ok tt)
          × ((insert_token row db).1 ≡ record db { tokens = db.tokens ++ row ∷ [] })
          × (find_if (has_id row.id) db.tokens ≡ none)
          × (agent_exists row.agent_id db.agents ≡ true))
  unfolding insert_token
  insert_outcome =
      let owner = agent_exists row.agent_id db.agents in
      let from = predecessor_exists row.rotated_from_id (db.tokens ++ row ∷ []) in
      elim (Option-cases (find_if (has_id row.id) db.tokens)) [
        | inr (old, e) ↦ inl (rw e, rw e)
        | inl e ↦ elim (Bool-cases (owner && from)) [
          | inl t ↦ inr (rw (e, t), rw (e, t), e, (and_parts owner from t).0)
          | inr f ↦ inl (rw (e, f), rw (e, f))
        ]
      ]

module _ (lib : Library) (settings : Settings) (agent_id : ℕ) (client : Client)
    (rotated_from_id : Option ℕ) (draw : Draw) (db : Db) where
  -- The tables once room is made.
  abbrev pub roomy : Db
  roomy = record db {
    tokens = make_room settings.mm_refresh_max_active_per_agent agent_id draw.now db.tokens;
  }

  abbrev pub minted : MmRefreshToken
  minted = new_row lib settings agent_id client rotated_from_id draw

  pub mint_outcome :
      let r = mint_refresh_token lib settings agent_id client rotated_from_id draw db in
      (r.0 ≡ err unhandled) × (r.1 ≡ roomy)
      ⊎ ((r.0 ≡ ok (raw_token draw.token_id draw.secret))
          × (r.1 ≡ record roomy { tokens = roomy.tokens ++ minted ∷ [] })
          × (find_if (has_id draw.token_id) roomy.tokens ≡ none)
          × (agent_exists agent_id db.agents ≡ true))
  unfolding mint_refresh_token new_row
  mint_outcome = elim (insert_outcome minted roomy) [
    | inl (e, f) ↦ inl (rw e, rw (e, f))
    | inr (e, f, g, t) ↦ inr (rw e, rw (e, f), g, t)
  ]
