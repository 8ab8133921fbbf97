-- ===== src/MeritRank/Steady.antt =====
-- Upserts of posts and comments (textlake/upsert.py) that keep to what the triggers of
-- meritmolt/schema/ddl.py can follow.
use meritmolt.Prelude.{
  ◌≡◌, refl, ap, Bool, true, false, not, Option, none, some, List, [], ◌∷◌, ◌++◌, update_if, All,
  arith, found_All, find_if_passes, Bool-cases, Option-cases, inl, inr,
}
use meritmolt.Text.{Text, same_text, same_text→≡}
use meritmolt.Subscriptions.Edges.{IsPlain}
use meritmolt.MeritRank.{
  Comment, Posts, Comments, Names, Lake, has_post_id, has_comment_id, find_comment, enriched_post,
  enriched_comment, parent_known, mm_get_board, Write, Upsert, of_post, of_comment, upsert,
}
use meritmolt.MeritRank.Nodes.{Node, weight_after}
use meritmolt.MeritRank.Weights.{weight}
use meritmolt.MeritRank.Touched.{IsPlainParent, HasParentIn}
use meritmolt.MeritRank.Sound.{IsSound}
use meritmolt.MeritRank.NewComment.{new_comment-found, old_comment-found}

-- The parent, where it is there, is on the comment's post.
abbrev pub IsOnPost : Comments → Text → Option Text → Type 0
IsOnPost comments post_id none = Unit
IsOnPost comments post_id (some p) =
    All (λ row. has_comment_id p row ≡ true → row.post_id ≡ post_id) comments

-- The ids get their prefixes, an update changes no column that the edges depend on, and a comment's
-- parent is on its post.
abbrev pub IsSteady : Lake → Upsert → Type 0
IsSteady lake (of_post p) =
    IsPlain p.id
    × IsPlain p.author_id
    × All (λ row. has_post_id p.id row ≡ true → enriched_post p row ≡ row) lake.posts
IsSteady lake (of_comment c) =
    IsPlain c.id
    × IsPlain c.author_id
    × IsPlain c.post_id
    × IsPlainParent c.parent_id
    × All (λ row. has_comment_id c.id row ≡ true → enriched_comment c row ≡ row) lake.comments
    × IsOnPost lake.comments c.post_id c.parent_id

-- The posts have the same boards under both.
abbrev pub SameBoards : Names → Names → Posts → Type 0
SameBoards names names' posts =
    All (λ p. mm_get_board names' p.submolt_id ≡ mm_get_board names p.submolt_id) posts

-- Each upsert is steady, and no submolt of a post is renamed on the way to the last names.
abbrev pub AreSteady : Names → List Write → Names → Lake → Type 0
AreSteady names [] last lake = SameBoards names last lake.posts
AreSteady names (u ∷ us) last lake =
    SameBoards names u.names lake.posts
    × IsSteady lake u.row
    × AreSteady u.names us last (upsert u.names u.known u.row lake)

-- The tables' keys hold, and MeritRank has the weights that they say.
pub record IsInStep (names : Names) (lake : Lake) : Type 0 where
  pub sound : IsSound lake
  pub agrees :
      (s d : Node) (b : Text)
      → weight_after s d b lake.calls ≡ weight names lake.posts lake.comments s d b

pub update_if_same :
    {A : Type 0} (q : A → Bool) (f : A → A) (xs : List A)
    → All (λ x. q x ≡ true → f x ≡ x) xs
    → update_if q f xs ≡ xs
update_if_same q f [] h = refl
update_if_same q f (x ∷ xs) h = elim (Bool-cases (q x)) [
  | inl t ↦ rw (t, h.0 t) (ap (λ r. x ∷ r) (update_if_same q f xs h.1))
  | inr e ↦ rw e (ap (λ r. x ∷ r) (update_if_same q f xs h.1))
]

pub not-false : (b : Bool) → not b ≡ true → b ≡ false
not-false b h = ground arith

-- What the foreign key asks of a parent, and its post.
pub parent_in :
    (posts : Posts) (comments : Comments) (c : Comment) (fresh : find_comment comments c.id ≡ none)
    (parent : Option Text)
    → parent_known comments c.id parent ≡ true
    → IsOnPost comments c.post_id parent
    → HasParentIn (comments ++ c ∷ []) c.post_id parent
parent_in posts comments c fresh none k h = tt
parent_in posts comments c fresh (some q) k h = elim (Bool-cases (same_text q c.id)) [
  | inl t ↦ (c, rw (same_text→≡ q c.id t) (new_comment-found posts comments c fresh), refl)
  | inr f ↦ elim (Option-cases (find_comment comments q)) [
    | inl n ↦ absurd (let z : false ≡ true = rw (f, n) at k in cc)
    | inr (row, e) ↦ (
      row,
      old_comment-found posts comments c fresh q row e,
      found_All (λ r. has_comment_id q r ≡ true → r.post_id ≡ c.post_id) (has_comment_id q) comments
          row e h (find_if_passes (has_comment_id q) comments row e),
    )
  ]
]
