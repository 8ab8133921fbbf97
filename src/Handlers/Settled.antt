-- ===== src/Handlers/Settled.antt =====
-- The order and the parents of the upserts in fetch_post_comments against the foreign key parent_id
-- (textlake/handlers/comments.py, textlake/models/entities.py).
use meritmolt.Prelude.{
  ◌≡◌, refl, inl, inr, String, Bool, true, false, Option, none, some, List, [], ◌∷◌, str_eq, eq_iff,
  Bool-cases, All,
}
use mathlib.Core.Option
use meritmolt.Errors.{ok}
use meritmolt.Json.{text}
use meritmolt.Entities.{is_member}
use meritmolt.Comments.{CommentRow, ids, parent_in, topological_sort}
use meritmolt.Comments.Order.{ParentSeen, ParentsFirst, topological_sort-ParentsFirst}
use meritmolt.Handlers.Stubs.{is_empty}
use meritmolt.Handlers.Store.{Store, Env, has_row, refers, put_comment}
use meritmolt.Handlers.PostComments.{with_parent, settled_parent, settle, ordered}
use meritmolt.Handlers.Parents.{put_comment-kept, put_comment-own, All-topological_sort}

-- The row's parent is NULL or in the table.
abbrev pub parent_present : Store → CommentRow → Bool
parent_present s row = refers s.comments (Option.map text row.parent_id)

-- Each row finds its parent when its turn in the upserts comes.
abbrev pub KeepsParents : Env → Store → List CommentRow → Type 0
KeepsParents env s [] = Unit
KeepsParents env s (row ∷ rows) =
    (parent_present s row ≡ true)
    × ((s' : Store)
        → put_comment env false row.id (with_parent row) s ≡ ok s'
        → KeepsParents env s' rows)

abbrev pub has_empty_parent : Option String → Bool
has_empty_parent none = false
has_empty_parent (some p) = is_empty p

-- Outside the batch a parent is in the table.
IsSettled : Store → List String → CommentRow → Type 0
IsSettled s batch row = parent_in batch row.parent_id ≡ false → parent_present s row ≡ true

settled_row :
    (s : Store) (batch : List String) (parent : Option String)
    → has_empty_parent parent ≡ false
    → parent_in batch (settled_parent (has_row s.comments) batch parent) ≡ false
    → refers s.comments (Option.map text (settled_parent (has_row s.comments) batch parent)) ≡ true
unfolding refers
settled_row s batch none h k = refl
settled_row s batch (some p) h k = elim (Bool-cases (is_member p batch)) [
  | inl t ↦ absurd (let e : true ≡ false = rw (h, t, t) at k in cc)
  | inr f ↦ elim (Bool-cases (has_row s.comments p)) [
    | inl t ↦ rw (h, f, t, t) refl
    | inr g ↦ rw (h, f, g) refl
  ]
]

settle-IsSettled :
    (s : Store) (batch : List String) (rows : List CommentRow)
    → All (λ (r : CommentRow). has_empty_parent r.parent_id ≡ false) rows
    → All (IsSettled s batch) (settle (has_row s.comments) batch rows)
unfolding settle IsSettled
settle-IsSettled s batch [] h = tt
settle-IsSettled s batch (row ∷ rows) (h, k) =
    (settled_row s batch row.parent_id h, settle-IsSettled s batch rows k)

refers_kept :
    (s s' : Store) (parent : Option String)
    → ((j : String) → has_row s.comments j ≡ true → has_row s'.comments j ≡ true)
    → refers s.comments (Option.map text parent) ≡ true
    → refers s'.comments (Option.map text parent) ≡ true
unfolding refers
refers_kept s s' none k h = refl
refers_kept s s' (some p) k h = k p h

module _ (env : Env) (start : Store) (batch : List String) where
  seen_present :
      (s : Store) (seen : List String) (row : CommentRow)
      → ((j : String) → has_row start.comments j ≡ true → has_row s.comments j ≡ true)
      → ((j : String) → is_member j seen ≡ true → has_row s.comments j ≡ true)
      → ParentSeen batch seen row
      → IsSettled start batch row
      → parent_present s row ≡ true
  unfolding IsSettled refers
  seen_present s seen row k m (inl outside) q = refers_kept start s row.parent_id k (q outside)
  seen_present s seen row k m (inr (p, e, among)) q = rw e (m p among)

  sorted-KeepsParents :
      (s : Store) (seen : List String) (rows : List CommentRow)
      → ((j : String) → has_row start.comments j ≡ true → has_row s.comments j ≡ true)
      → ((j : String) → is_member j seen ≡ true → has_row s.comments j ≡ true)
      → ParentsFirst batch seen rows
      → All (IsSettled start batch) rows
      → KeepsParents env s rows
  sorted-KeepsParents s seen [] k m p q = tt
  sorted-KeepsParents s seen (row ∷ rows) k m (p, ps) (q, qs) = (
    seen_present s seen row k m p q,
    λ s' done.
        let kept = put_comment-kept env false row.id (with_parent row) s s' done in
        sorted-KeepsParents s' (row.id ∷ seen) rows (λ j h. kept j (k j h))
          (λ j h. elim (Bool-cases (str_eq j row.id)) [
            | inl t ↦
                rw ((eq_iff j row.id).0 t)
                  (put_comment-own env false row.id (with_parent row) s s' done)
            | inr f ↦ kept j (m j (rw f at h))
          ])
          ps qs,
  )

-- When fetch_post_comments upserts the rows of its batch in their order, each row's parent is NULL or
-- in the table at its turn, whatever parents the body names, cycles and ids of unknown comments among
-- them, except the empty text.
pub ordered-KeepsParents :
    (env : Env) (s : Store) (rows : List CommentRow)
    → All (λ (r : CommentRow). has_empty_parent r.parent_id ≡ false) rows
    → KeepsParents env s (ordered env s rows)
unfolding IsSettled refers
ordered-KeepsParents env s rows h =
    let batch = ids rows in
    let settled = settle (has_row s.comments) batch rows in
    sorted-KeepsParents env s batch s [] (topological_sort settled batch) (λ j k. k)
      (λ j k. absurd (cc)) (topological_sort-ParentsFirst settled batch)
      (All-topological_sort (IsSettled s batch) batch settled (settle-IsSettled s batch rows h)
        (λ r k l. refl))
