-- ===== src/Auth/Tokens/Limit.antt =====
-- How many active refresh tokens mint_refresh_token leaves an agent (meritmolt/auth/tokens.py).
use meritmolt.Prelude.{
  ℕ, ◌+◌, ◌≤◌, ◌<◌, ◌≡◌, ◌≢◌, refl, sym, ap, subst, ◌⊎◌, inl, inr, Bool, true, false, Option, none,
  some, List, [], ◌∷◌, arith, Bool-cases, Option-cases, count_if, update_if, count_if-append,
  count_if-update_lt, All, Among, All-Among, update_if_nowhere, leb,
}
use meritmolt.Errors.{ok}
use meritmolt.Config.{Settings}
use meritmolt.Auth.Tables.{Text, MmRefreshToken, Db, has_id, is_unrevoked, is_active, KeysDiffer}
use meritmolt.Auth.Tokens.Mint.{mint_outcome}
use meritmolt.Auth.Tokens.{
  Library, Draw, Client, older, oldest, revoke, revoke_row, make_room, new_row, mint_refresh_token,
}

older-cases :
    (x : MmRefreshToken) (o : Option MmRefreshToken)
    → (older x o ≡ x) ⊎ ((y : MmRefreshToken) × (o ≡ some y) × (older x o ≡ y))
unfolding older
older-cases x none = inl refl
older-cases x (some y) = elim (Bool-cases (leb x.created_at y.created_at)) [
  | inl t ↦ inl (rw t)
  | inr f ↦ inr (y, refl, rw f)
]

oldest-Among :
    (p : MmRefreshToken → Bool) (rows : List MmRefreshToken) (r : MmRefreshToken)
    → oldest p rows ≡ some r
    → Among r rows × (p r ≡ true)
unfolding oldest
oldest-Among p [] r h = absurd (cc)
oldest-Among p (x ∷ rows) r h = elim (Bool-cases (p x)) [
  | inr f ↦ let (m, q) = oldest-Among p rows r (ground (arith, h, f)) in (inr m, q)
  | inl t ↦ elim (older-cases x (oldest p rows)) [
    | inl e ↦ let same : r ≡ x = ground (arith, h, t, e) in (inl same, rw same t)
    | inr (y, found, e) ↦
        let (m, q) = oldest-Among p rows y found in
        let same : r ≡ y = ground (arith, h, t, e) in
        (inr (subst (λ z. Among z rows) (sym same) m), rw same q)
  ]
]

oldest-none :
    (p : MmRefreshToken → Bool) (rows : List MmRefreshToken)
    → oldest p rows ≡ none
    → count_if p rows ≡ 0
unfolding oldest
oldest-none p [] h = refl
oldest-none p (x ∷ rows) h = ground (arith, oldest-none p rows)

-- A token of the agent that is not revoked has not expired either.
abbrev pub NoneExpired : ℕ → ℕ → List MmRefreshToken → Type 0
NoneExpired agent_id now rows =
    All (λ row. is_unrevoked agent_id row ≡ true → now < row.expires_at) rows

revoke-inactive :
    (agent_id now at : ℕ) (row : MmRefreshToken) → is_active agent_id now (revoke at row) ≡ false
unfolding revoke
revoke-inactive agent_id now at row = ground arith

unrevoked-inactive :
    (agent_id now : ℕ) (rows : List MmRefreshToken)
    → count_if (is_unrevoked agent_id) rows ≡ 0
    → count_if (is_active agent_id now) rows ≡ 0
unrevoked-inactive agent_id now [] h = refl
unrevoked-inactive agent_id now (row ∷ rows) h = elim (Bool-cases (is_unrevoked agent_id row)) [
  | inl t ↦ absurd (ground arith)
  | inr f ↦ rw f (unrevoked-inactive agent_id now rows (ground arith))
]

NoneExpired-active :
    (agent_id now : ℕ) (rows : List MmRefreshToken) (row : MmRefreshToken)
    → NoneExpired agent_id now rows
    → Among row rows
    → is_unrevoked agent_id row ≡ true
    → is_active agent_id now row ≡ true
NoneExpired-active agent_id now [] row h m u = absurd m
NoneExpired-active agent_id now (x ∷ rows) row h (inl e) u =
    rw u (rw e (let lt : now < x.expires_at = h.0 (rw e at u) in ground arith))
NoneExpired-active agent_id now (x ∷ rows) row h (inr m) u =
    NoneExpired-active agent_id now rows row h.1 m u

-- Making room leaves fewer active tokens than the limit.
make_room-lt :
    (limit agent_id now : ℕ) (rows : List MmRefreshToken)
    → 0 < limit
    → NoneExpired agent_id now rows
    → count_if (is_active agent_id now) rows ≤ limit
    → count_if (is_active agent_id now) (make_room limit agent_id now rows) < limit
unfolding make_room revoke_row
make_room-lt limit agent_id now rows pos fresh le =
    elim (Bool-cases (leb limit (count_if (is_active agent_id now) rows))) [
      | inr f ↦ rw f (ground arith)
      | inl t ↦ elim (Option-cases (oldest (is_unrevoked agent_id) rows)) [
        | inl e ↦ absurd (
            ground (
              arith,
              unrevoked-inactive agent_id now rows (oldest-none (is_unrevoked agent_id) rows e),
            ))
        | inr (row, e) ↦
            let (m, u) = oldest-Among (is_unrevoked agent_id) rows row e in
            let lt =
              count_if-update_lt (is_active agent_id now) (has_id row.id) (revoke now) row rows
                (revoke-inactive agent_id now now) m
                (NoneExpired-active agent_id now rows row fresh m u) (ground arith) in
            rw (t, e, revoke_row) (omega (arith, lt))
      ]
    ]

-- Minting never leaves an agent more active tokens than the limit, if the limit is not 0, was kept
-- before, and no token of the agent that is still unrevoked has expired.
pub mint-limit :
    (lib : Library) (settings : Settings) (agent_id : ℕ) (client : Client)
    (rotated_from_id : Option ℕ) (draw : Draw) (db : Db)
    → 0 < settings.mm_refresh_max_active_per_agent
    → NoneExpired agent_id draw.now db.tokens
    → count_if (is_active agent_id draw.now) db.tokens ≤ settings.mm_refresh_max_active_per_agent
    → count_if
        (is_active agent_id draw.now)
        (mint_refresh_token lib settings agent_id client rotated_from_id draw db).1.tokens
      ≤ settings.mm_refresh_max_active_per_agent
mint-limit lib settings agent_id client rotated_from_id draw db pos fresh le =
    elim (mint_outcome lib settings agent_id client rotated_from_id draw db) [
      | inl (_, e) ↦ rw e (omega (arith, room))
      | inr (_, e, _, _) ↦
          rw (e, count_if-append (is_active agent_id draw.now)) (ground (arith, room))
    ]
  where
    room :
        count_if
          (is_active agent_id draw.now)
          (make_room settings.mm_refresh_max_active_per_agent agent_id draw.now db.tokens)
        < settings.mm_refresh_max_active_per_agent
    room =
        make_room-lt settings.mm_refresh_max_active_per_agent agent_id draw.now db.tokens pos fresh
          le

other_keys :
    (row : MmRefreshToken) (rows : List MmRefreshToken)
    → All (λ other. other.id ≢ row.id) rows
    → All (λ other. has_id row.id other ≡ false) rows
other_keys row [] h = tt
other_keys row (x ∷ rows) h = (ground (arith, h.0), other_keys row rows h.1)

-- Revoking a row that is not active changes no count of active rows.
revoke_row_inactive :
    (agent_id now : ℕ) (row : MmRefreshToken) (rows : List MmRefreshToken)
    → KeysDiffer rows
    → Among row rows
    → is_active agent_id now row ≡ false
    → count_if (is_active agent_id now) (update_if (has_id row.id) (revoke now) rows)
      ≡ count_if (is_active agent_id now) rows
revoke_row_inactive agent_id now row [] keys m h = absurd m
revoke_row_inactive agent_id now row (x ∷ rows) keys (inl e) h =
    let rest : All (λ other. has_id row.id other ≡ false) rows = rw e (other_keys x rows keys.0) in
    rw (update_if_nowhere (has_id row.id) (revoke now) rows rest)
      (ground (arith, e, h, ap (is_active agent_id now) e, revoke-inactive agent_id now now x))
revoke_row_inactive agent_id now row (x ∷ rows) keys (inr m) h =
    let distinct = All-Among (λ other. other.id ≢ x.id) rows row keys.0 m in
    ground (arith, distinct, revoke_row_inactive agent_id now row rows keys.1 m h)

make_room_expired :
    (limit agent_id now : ℕ) (rows : List MmRefreshToken) (row : MmRefreshToken)
    → KeysDiffer rows
    → oldest (is_unrevoked agent_id) rows ≡ some row
    → row.expires_at ≤ now
    → limit ≤ count_if (is_active agent_id now) rows
    → count_if (is_active agent_id now) (make_room limit agent_id now rows)
      ≡ count_if (is_active agent_id now) rows
unfolding make_room revoke_row
make_room_expired limit agent_id now rows row keys first expired full =
    let reached : leb limit (count_if (is_active agent_id now) rows) ≡ true = ground arith in
    rw (reached, first, revoke_row)
      (revoke_row_inactive agent_id now row rows keys
        (oldest-Among (is_unrevoked agent_id) rows row first).0 (ground arith))

-- The limit is overrun whenever it is reached and the agent's oldest unrevoked token has expired:
-- that token is the one revoked, and the new one, if its lifetime is not 0, adds to the active ones.
pub mint_over_limit :
    (lib : Library) (settings : Settings) (agent_id : ℕ) (client : Client)
    (rotated_from_id : Option ℕ) (draw : Draw) (db : Db) (row : MmRefreshToken) (raw : Text)
    → KeysDiffer db.tokens
    → oldest (is_unrevoked agent_id) db.tokens ≡ some row
    → row.expires_at ≤ draw.now
    → 0 < settings.mm_refresh_ttl_seconds
    → settings.mm_refresh_max_active_per_agent ≤ count_if (is_active agent_id draw.now) db.tokens
    → (mint_refresh_token lib settings agent_id client rotated_from_id draw db).0 ≡ ok raw
    → count_if
        (is_active agent_id draw.now)
        (mint_refresh_token lib settings agent_id client rotated_from_id draw db).1.tokens
      ≡ count_if (is_active agent_id draw.now) db.tokens + 1
mint_over_limit lib settings agent_id client rotated_from_id draw db row raw keys first expired ttl
      full done =
    elim (mint_outcome lib settings agent_id client rotated_from_id draw db) [
      | inl (failed, _) ↦ absurd (cc)
      | inr (_, e, _, _) ↦
          rw (e, count_if-append (is_active agent_id draw.now))
            (unfold new_row in ground (arith, same))
    ]
  where
    same :
        count_if
          (is_active agent_id draw.now)
          (make_room settings.mm_refresh_max_active_per_agent agent_id draw.now db.tokens)
        ≡ count_if (is_active agent_id draw.now) db.tokens
    same =
        make_room_expired settings.mm_refresh_max_active_per_agent agent_id draw.now db.tokens row
          keys first expired full
