-- ===== src/Handlers/Parents.antt =====
-- The parents of the comments that fetch_post_comments upserts (textlake/handlers/comments.py).
use meritmolt.Prelude.{
  ℕ, zero, suc, ◌≡◌, refl, sym, ap, ◌∙◌, ◌⊎◌, inl, inr, String, Bool, true, false, not, ◌&&◌, none,
  List, [], ◌∷◌, ◌++◌, ◌==◌, length, find_if-append, find_if-snoc, find_if-update_if, eq_iff,
  Bool-cases, Option-cases, All, All-append, All-keep_if,
}
use meritmolt.Errors.{Failure, Result, ok, err}
use meritmolt.Json.{Json}
use meritmolt.Entities.{
  Cells, Table, Entity, has_row_id, enrich, all_set, name_taken, written, write_row,
  enrichment_upsert, upsert_comment, mb_comment,
}
use meritmolt.Comments.{
  CommentRow, Degrees, start_degrees, children, lower, release, drain, roots, orphaned, remaining,
  topological_sort,
}
use meritmolt.Handlers.Store.{Store, Env, find_row, has_row, comment_keys, put_comment}

pub Result-cases {ℓ} :
    {A : Type ℓ} (r : Result A) → ((a : A) × (r ≡ ok a)) ⊎ ((e : Failure) × (r ≡ err e))
Result-cases (ok a) = inl (a, refl)
Result-cases (err e) = inr (e, refl)

pub upsert_rows :
    (same_name : Json → Json → Bool) (entity : Entity) (auth : Bool) (now : ℕ) (i : String)
    (new : Cells) (table after : Table)
    → enrichment_upsert same_name entity auth now i new table ≡ ok after
    → after ≡ write_row entity auth now i new (find_row table i) table
unfolding enrichment_upsert
upsert_rows same_name entity auth now i new table after h =
    elim (Bool-cases (
      all_set entity.required new
      && not (name_taken same_name entity i (written entity auth new (find_row table i)) table))) [
        | inl t ↦ let e = rw t at h in cc
        | inr f ↦ absurd (let e = rw f at h in cc)
      ]

module _ (entity : Entity) (auth : Bool) (now : ℕ) (i : String) (new : Cells) (table : Table) where
  has_row_kept :
      (j : String)
      → has_row table j ≡ true
      → has_row (write_row entity auth now i new (find_row table i) table) j ≡ true
  unfolding enrich
  has_row_kept j h = elim (Option-cases (find_row table i)) [
    | inl n ↦ elim (Option-cases (find_row table j)) [
      | inl m ↦ absurd (let e : false ≡ true = rw m at h in cc)
      | inr (row, e) ↦ rw n (
          rw
            (find_if-append (has_row_id j) table
              (record { id = i; cells = new; first_seen_at = now; last_seen_at = now } ∷ []) row e)
            refl)
    ]
    | inr (old, o) ↦ elim (Option-cases (find_row table j)) [
      | inl m ↦ absurd (let e : false ≡ true = rw m at h in cc)
      | inr (row, e) ↦ rw o (
          rw
            (
              find_if-update_if (has_row_id j) (has_row_id i) (enrich entity auth now new) table
                  (λ x. refl),
              e,
            )
            refl)
    ]
  ]

  has_row_own : has_row (write_row entity auth now i new (find_row table i) table) i ≡ true
  unfolding enrich
  has_row_own = elim (Option-cases (find_row table i)) [
    | inl n ↦ rw n (
        rw
          (
            find_if-snoc (has_row_id i) table
                (record { id = i; cells = new; first_seen_at = now; last_seen_at = now }) n,
            (eq_iff i i).1 refl,
          )
          refl)
    | inr (old, o) ↦ has_row_kept i (rw o refl)
  ]

-- A comment that is upserted is in the table, and so is what was.
module _ (env : Env) (auth : Bool) (i : String) (cells : Cells) (s s' : Store)
    (h : put_comment env auth i cells s ≡ ok s') where
  put_comment-rows :
      s'.comments ≡ write_row mb_comment auth env.now i cells (find_row s.comments i) s.comments
  unfolding put_comment upsert_comment
  put_comment-rows =
      elim (Result-cases
        (enrichment_upsert env.same_name mb_comment auth env.now i cells s.comments)) [
          | inr (f, e) ↦ absurd (let g = rw e at h in cc)
          | inl (after, e) ↦ elim (Bool-cases (comment_keys s after (find_row after i))) [
            | inr f ↦ absurd (let g = rw (e, f) at h in cc)
            | inl t ↦
                let g : ok (record s { comments = after }) ≡ ok s' = rw (e, t) at h in
                ap (λ (r : Result Store). comments_of after r) (sym g)
                ∙ upsert_rows env.same_name mb_comment auth env.now i cells s.comments after e
          ]
        ]
    where
      comments_of : Table → Result Store → Table
      comments_of other (ok st) = st.comments
      comments_of other (err e) = other

  pub put_comment-kept : (j : String) → has_row s.comments j ≡ true → has_row s'.comments j ≡ true
  put_comment-kept j k =
      rw put_comment-rows (has_row_kept mb_comment auth env.now i cells s.comments j k)

  pub put_comment-own : has_row s'.comments i ≡ true
  put_comment-own = rw put_comment-rows (has_row_own mb_comment auth env.now i cells s.comments)

-- What holds of all rows, and of them without their parents, holds of the sorted ones.
module _ (P : CommentRow → Type 0) (batch : List String) (rows : List CommentRow)
    (h : All P rows) where
  All-release : (cs : List CommentRow) (degrees : Degrees) → All P cs → All P (release cs degrees).1
  unfolding release
  All-release [] degrees k = tt
  All-release (c ∷ cs) degrees (k, l) = elim (Bool-cases (degrees c.id == 1)) [
    | inl t ↦ rw t (k, All-release cs (lower c.id degrees) l)
    | inr f ↦ rw f (All-release cs (lower c.id degrees) l)
  ]

  All-drain :
      (fuel : ℕ) (ready : List CommentRow) (degrees : Degrees)
      → All P ready
      → All P (drain batch rows fuel ready degrees)
  unfolding drain
  All-drain fuel [] degrees k = tt
  All-drain zero (r ∷ ready) degrees k = tt
  All-drain (suc fuel) (r ∷ ready) degrees (k, l) =
      let freed = release (children batch rows r.id) degrees in
      (
        k,
        All-drain fuel (ready ++ freed.1) freed.0 (
            All-append P ready freed.1 l
              (All-release (children batch rows r.id) degrees (All-keep_if P _ rows h))),
      )

  All-orphaned :
      (xs : List CommentRow)
      → ((r : CommentRow) → P r → P (record r { parent_id = none }))
      → All P xs
      → All P (orphaned xs)
  All-orphaned [] k l = tt
  All-orphaned (x ∷ xs) k (l, m) = (k x l, All-orphaned xs k m)

  pub All-topological_sort :
      ((r : CommentRow) → P r → P (record r { parent_id = none }))
      → All P (topological_sort rows batch)
  unfolding topological_sort
  All-topological_sort k =
      let degrees = start_degrees batch rows in
      let sorted = drain batch rows (length rows) (roots rows degrees) degrees in
      All-append P sorted (remaining sorted rows)
        (All-drain (length rows) (roots rows degrees) degrees (All-keep_if P _ rows h))
        (All-orphaned _ k (All-keep_if P _ rows h))
