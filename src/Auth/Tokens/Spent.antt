-- ===== src/Auth/Tokens/Spent.antt =====
-- Tokens that are revoked stay revoked, whatever meritmolt/auth/tokens.py does to the table.
use mathlib.Core.Option
use meritmolt.Prelude.{
  ℕ, ◌≡◌, refl, inl, inr, Bool, true, false, not, Option, none, some, List, [], ◌∷◌, ◌++◌, arith,
  Bool-cases, Option-cases, find_if, update_if, find_if-update_if, find_if-append, leb, count_if,
  is_none, if◌then◌else◌, ◌&&◌,
}
use meritmolt.Config.{Settings}
use meritmolt.Auth.Tables.{MmRefreshToken, Db, has_id, is_unrevoked, is_active}
use meritmolt.Auth.Tokens.Mint.{roomy, minted, mint_outcome}
use meritmolt.Auth.Tokens.{
  Library, Draw, Client, oldest, revoke, revoke_row, make_room, mint_refresh_token,
}

abbrev revoked : Option MmRefreshToken → Bool
revoked none = false
revoked (some row) = not (is_none row.revoked_at)

-- The table holds the id, with a token that is revoked.
unfoldable pub is_spent : ℕ → List MmRefreshToken → Bool
is_spent token_id rows = revoked (find_if (has_id token_id) rows)

pub has_id-revoke : (i at : ℕ) (row : MmRefreshToken) → has_id i (revoke at row) ≡ has_id i row
unfolding revoke
has_id-revoke i at row = refl

revoked-update :
    (q : MmRefreshToken → Bool) (at : ℕ) (o : Option MmRefreshToken)
    → revoked o ≡ true
    → revoked (Option.map (λ x. if q x then revoke at x else x) o) ≡ true
unfolding revoke
revoked-update q at none h = h
revoked-update q at (some row) h = elim (Bool-cases (q row)) [ inl t ↦ rw t | inr f ↦ rw f h ]

module _ (i : ℕ) (rows : List MmRefreshToken) (h : is_spent i rows ≡ true) where
  pub is_spent-update :
      (q : MmRefreshToken → Bool) (at : ℕ) → is_spent i (update_if q (revoke at) rows) ≡ true
  unfolding is_spent
  is_spent-update q at =
      rw (find_if-update_if (has_id i) q (revoke at) rows (has_id-revoke i at))
        (revoked-update q at (find_if (has_id i) rows) h)

  pub is_spent-append : (more : List MmRefreshToken) → is_spent i (rows ++ more) ≡ true
  unfolding is_spent
  is_spent-append more = elim (Option-cases (find_if (has_id i) rows)) [
    | inl e ↦ absurd (let f : false ≡ true = rw e at h in cc)
    | inr (row, e) ↦ rw (find_if-append (has_id i) rows more row e) (rw e at h)
  ]

  is_spent-revoke_row :
      (at : ℕ) (o : Option MmRefreshToken) → is_spent i (revoke_row at o rows) ≡ true
  unfolding revoke_row
  is_spent-revoke_row at none = h
  is_spent-revoke_row at (some row) = is_spent-update (has_id row.id) at

  is_spent-make_room :
      (limit agent_id now : ℕ) → is_spent i (make_room limit agent_id now rows) ≡ true
  unfolding make_room
  is_spent-make_room limit agent_id now =
      elim (Bool-cases (leb limit (count_if (is_active agent_id now) rows))) [
        | inl t ↦ rw t (is_spent-revoke_row now (oldest (is_unrevoked agent_id) rows))
        | inr f ↦ rw f h
      ]

-- Minting leaves every revoked token revoked.
pub is_spent-mint :
    (lib : Library) (settings : Settings) (agent_id : ℕ) (client : Client)
    (rotated_from_id : Option ℕ) (draw : Draw) (db : Db) (i : ℕ)
    → is_spent i db.tokens ≡ true
    → is_spent i (mint_refresh_token lib settings agent_id client rotated_from_id draw db).1.tokens
      ≡ true
is_spent-mint lib settings agent_id client rotated_from_id draw db i h =
    elim (mint_outcome lib settings agent_id client rotated_from_id draw db) [
      | inl (_, e) ↦ rw e room
      | inr (_, e, _, _) ↦ rw e (
          is_spent-append i _ room
            (minted lib settings agent_id client rotated_from_id draw db ∷ []))
    ]
  where
    room : is_spent i (roomy lib settings agent_id client rotated_from_id draw db).tokens ≡ true
    room =
        is_spent-make_room i db.tokens h settings.mm_refresh_max_active_per_agent agent_id draw.now

-- The row that is found under an id is spent once the rows of its id are revoked.
pub is_spent-found :
    (i at : ℕ) (rows : List MmRefreshToken) (row : MmRefreshToken)
    → find_if (has_id i) rows ≡ some row
    → is_spent i (update_if (has_id row.id) (revoke at) rows) ≡ true
unfolding is_spent
is_spent-found i at rows row h =
    let same : has_id row.id row ≡ true = ground arith in
    rw (find_if-update_if (has_id i) (has_id row.id) (revoke at) rows (has_id-revoke i at), h, same)
      (unfold revoke in refl)

-- The row that is found under an id is spent once it is revoked, if it was not already.
pub is_spent-once :
    (i at : ℕ) (rows : List MmRefreshToken) (row : MmRefreshToken)
    → find_if (has_id i) rows ≡ some row
    → has_id i row ≡ true
    → is_spent i
        (update_if (λ (r : MmRefreshToken). has_id i r && is_none r.revoked_at) (revoke at) rows)
      ≡ true
unfolding is_spent
is_spent-once i at rows row h same =
    rw
      (
        find_if-update_if (has_id i) (λ (r : MmRefreshToken). has_id i r && is_none r.revoked_at)
            (revoke at) rows (has_id-revoke i at),
        h,
        same,
      )
      (elim (Bool-cases (is_none row.revoked_at)) [
        | inl t ↦ rw t (unfold revoke in refl)
        | inr f ↦ rw (f, f) refl
      ])
