-- ===== src/MeritRank/Sound.antt =====
-- Tables whose keys hold, and what follows from a trigger's calls (meritmolt/schema/ddl.py) not being about
-- an edge.
use meritmolt.Prelude.{
  ◌≡◌, refl, sym, ◌∙◌, Bool, true, false, ◌&&◌, ◌||◌, Option, none, some, [], ◌∷◌, All, All-Among,
  Among, and_parts, arith, Bool-cases, inl, inr, or_false,
}
use meritmolt.Text.{Text, same_text, same_text_refl, same_text→≡}
use meritmolt.Subscriptions.Edges.{IsPlain}
use meritmolt.MeritRank.{
  Post, Comment, Posts, Comments, Names, Lake, mm_get_board, post_board, find_post, find_comment,
  is_on_post, is_reply_to, has_parent,
}
use meritmolt.MeritRank.Nodes.{Node, user_node, post_node, comment_node, is_hit}
use meritmolt.MeritRank.Touched.{
  IsPlainParent, HasParentIn, upvotes_post, upvotes_parent, touches_comment,
}

-- A row that the search for its id finds, with ids that get their prefix.
abbrev pub PostIn : Posts → Post → Type 0
PostIn posts p = (find_post posts p.id ≡ some p) × IsPlain p.id × IsPlain p.author_id

-- The same for a comment, whose post is there, and whose parent is there on the same post.
pub record CommentIn (posts : Posts) (comments : Comments) (c : Comment) : Type 0 where
  pub found : find_comment comments c.id ≡ some c
  pub post : Post
  pub on_post : find_post posts c.post_id ≡ some post
  pub parent : HasParentIn comments c.post_id c.parent_id
  pub plain : IsPlain c.id × IsPlain c.author_id × IsPlain c.post_id × IsPlainParent c.parent_id

-- Unique plain ids, and foreign keys that hold.
pub record IsSound (lake : Lake) : Type 0 where
  pub sound_posts : All (PostIn lake.posts) lake.posts
  pub sound_comments : All (CommentIn lake.posts lake.comments) lake.comments

pub post_in : (lake : Lake) → IsSound lake → (p : Post) → Among p lake.posts → PostIn lake.posts p
post_in lake sound p m = All-Among (PostIn lake.posts) lake.posts p sound.sound_posts m

pub comment_in :
    (lake : Lake)
    → IsSound lake
    → (c : Comment) → Among c lake.comments
    → CommentIn lake.posts lake.comments c
comment_in lake sound c m =
    All-Among (CommentIn lake.posts lake.comments) lake.comments c sound.sound_comments m

pub same_text_sym : (a b : Text) → same_text a b ≡ same_text b a
unfolding same_text
same_text_sym [] [] = refl
same_text_sym [] (d ∷ ds) = refl
same_text_sym (c ∷ cs) [] = refl
same_text_sym (c ∷ cs) (d ∷ ds) = ground (arith, same_text_sym cs ds)

pub with_true : (p q : Bool) → (p && q) ≡ false → p ≡ true → q ≡ false
with_true true q h e = h
with_true false q h e = absurd (cc)

pub same_as : (a b : Text) → a ≡ b → same_text a b ≡ true
same_as a b e = rw e (same_text_refl b)

-- The calls of a comment that are not about an edge, one by one.
pub untouched_parts :
    (names : Names) (posts : Posts) (comments : Comments) (s d : Node) (b : Text) (c : Comment)
    → touches_comment names posts comments s d b c ≡ false
    → (upvotes_parent names posts comments s d b c c.parent_id ≡ false)
      × (upvotes_post names posts comments s d b c ≡ false)
      × (is_hit s d b (user_node c.author_id) (comment_node c.id) (post_board names posts c.post_id)
          ≡ false)
      × (is_hit s d b (comment_node c.id) (user_node c.author_id) (post_board names posts c.post_id)
          ≡ false)
unfolding touches_comment
untouched_parts names posts comments s d b c h =
    let board = post_board names posts c.post_id in
    let parent = upvotes_parent names posts comments s d b c c.parent_id in
    let post = upvotes_post names posts comments s d b c in
    let own = is_hit s d b (user_node c.author_id) (comment_node c.id) board in
    let back = is_hit s d b (comment_node c.id) (user_node c.author_id) board in
    let (x, k) = or_false parent (post || (own || back)) h in
    let (y, l) = or_false post (own || back) k in let (z, w) = or_false own back l in (x, y, z, w)

-- A row of the author on the post: its calls are about the author's edge to the post, if the post is
-- another's and on the board.
pub counted_touches :
    (names : Names) (posts : Posts) (comments : Comments) (a i b : Text) (row : Post) (c : Comment)
    → find_post posts i ≡ some row
    → same_text a row.author_id ≡ false
    → same_text (mm_get_board names row.submolt_id) b ≡ true
    → upvotes_post names posts comments (user_node a) (post_node i) b c ≡ false
    → is_on_post a i c ≡ false
unfolding post_board
counted_touches names posts comments a i b row c e other board h =
    elim (Bool-cases (is_on_post a i c)) [
      | inr f ↦ f
      | inl t ↦
          let (x, y) = and_parts (same_text c.author_id a) (same_text c.post_id i) t in
          let p = same_text→≡ c.author_id a x in
          let q = same_text→≡ c.post_id i y in
          let g : true ≡ false =
            rw (p, q, e, other, same_text_refl a, same_text_refl i, board) at h in
          absurd (let z : true ≡ false = g in cc)
    ]

some_inj : {A : Type 0} (x y : A) → some x ≡ some y → x ≡ y
some_inj x y h = cc

-- A reply of the author's to a comment of another's, on the same post.
module _ (names : Names) (posts : Posts) (comments : Comments) (a i b : Text)
    (row c : Comment) where
  replied_by :
      (parent : Option Text)
      → find_comment comments i ≡ some row
      → HasParentIn comments c.post_id parent
      → same_text a row.author_id ≡ false
      → same_text (post_board names posts row.post_id) b ≡ true
      → upvotes_parent names posts comments (user_node a) (comment_node i) b c parent ≡ false
      → (same_text c.author_id a && has_parent parent i) ≡ false
  replied_by none e h other board u = ground arith
  replied_by (some p) e (r, found, same) other board u =
      elim (Bool-cases (same_text c.author_id a && same_text p i)) [
        | inr f ↦ f
        | inl t ↦
            let (x, y) = and_parts (same_text c.author_id a) (same_text p i) t in
            let v = same_text→≡ c.author_id a x in
            let w = same_text→≡ p i y in
            let same_row : row ≡ r = some_inj row r (sym e ∙ (rw (← w) found)) in
            let z : c.post_id ≡ row.post_id = rw same_row (sym same) in
            let g : true ≡ false =
              rw (v, w, e, other, z, same_text_refl a, same_text_refl i, board) at u in
            absurd (let q : true ≡ false = g in cc)
      ]

  pub replied_touches :
      find_comment comments i ≡ some row
      → HasParentIn comments c.post_id c.parent_id
      → same_text a row.author_id ≡ false
      → same_text (post_board names posts row.post_id) b ≡ true
      → upvotes_parent names posts comments (user_node a) (comment_node i) b c c.parent_id ≡ false
      → is_reply_to a i c ≡ false
  replied_touches e h other board u = replied_by c.parent_id e h other board u
