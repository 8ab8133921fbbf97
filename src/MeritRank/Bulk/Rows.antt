-- ===== src/MeritRank/Bulk/Rows.antt =====
-- The edges of meritrank_bulk_init (meritmolt/schema/ddl.py) between a row and its author: meritrank_init gives
-- them the same weights.
use meritmolt.Prelude.{
  ◌≡◌, refl, sym, ◌∙◌, inl, inr, ℕ, Bool, true, ◌&&◌, ◌||◌, some, Among, any_of-Among, Bool-cases,
  arith,
}
use meritmolt.Text.{Text, same_text, same_text_refl}
use meritmolt.MeritRank.{Post, Comment, Names, Lake, mm_get_board, find_post}
use meritmolt.MeritRank.Nodes.{
  Node, user_node, post_node, comment_node, label, same_label, prefix_plain, is_hit,
}
use meritmolt.MeritRank.Weights.{weight, touches_post, hit_equal}
use meritmolt.MeritRank.Touched.{touches_comment, touches_row, touches_row-weight}
use meritmolt.MeritRank.Sound.{PostIn, CommentIn}
use meritmolt.MeritRank.Rebuild.{is_touched}
use meritmolt.MeritRank.Bulk.{
  BulkEdge, post_to_author, author_to_post, comment_to_author, author_to_comment,
}

-- The row is about the edge.
abbrev pub row_hits : Node → Node → Text → BulkEdge → Bool
row_hits s d b row =
    same_text row.src (label s) && (same_text row.dst (label d) && same_text row.context b)

-- The row of two plain ids is about the edge between their nodes.
pub row_hits-is_hit :
    (s d : Node) (b : Text) (x y : Node) (row : BulkEdge)
    → row.src ≡ label x
    → row.dst ≡ label y
    → row_hits s d b row ≡ is_hit s d b x y row.context
row_hits-is_hit s d b x y row e f = rw (e, f, same_label x s, same_label y d) refl

pub or_left : (p q : Bool) → p ≡ true → (p || q) ≡ true
or_left p q h = rw h refl

pub or_right : (p q : Bool) → q ≡ true → (p || q) ≡ true
or_right p q h = ground arith

-- The row's edge has the row's weight after meritrank_init.
module _ (names : Names) (lake : Lake) (s d : Node) (b : Text) where
  -- Calls of meritrank_init are about the edge, to which the tables give the weight.
  abbrev pub HasWeight : ℕ → Type 0
  HasWeight w =
      (is_touched names lake s d b ≡ true) × (weight names lake.posts lake.comments s d b ≡ some w)

  touches_post-weight :
      (p : Post)
      → find_post lake.posts p.id ≡ some p
      → touches_post s d b names p ≡ true
      → weight names lake.posts lake.comments s d b ≡ some 1
  unfolding weight touches_post
  touches_post-weight p found h =
      let board = mm_get_board names p.submolt_id in
      elim (Bool-cases (is_hit s d b (user_node p.author_id) (post_node p.id) board)) [
        | inl t ↦
            let (x, y, z) = hit_equal s d b (user_node p.author_id) (post_node p.id) board t in
            rw (x, y, z, found, same_text_refl board, same_text_refl p.author_id) refl
        | inr f ↦
            let (x, y, z) =
              hit_equal s d b (post_node p.id) (user_node p.author_id) board (rw f at h) in
            rw (x, y, z, found, same_text_refl board, same_text_refl p.author_id) refl
      ]

  post_touched :
      (p : Post)
      → Among p lake.posts
      → PostIn lake.posts p
      → touches_post s d b names p ≡ true
      → HasWeight 1
  post_touched p m h t = (
    or_left _ _ (any_of-Among (touches_post s d b names) lake.posts p m t),
    touches_post-weight p h.0 t,
  )

  pub comment_touched :
      (c : Comment)
      → Among c lake.comments
      → touches_comment names lake.posts lake.comments s d b c ≡ true
      → is_touched names lake s d b ≡ true
  comment_touched c m t =
      or_right _ _
        (any_of-Among (touches_comment names lake.posts lake.comments s d b) lake.comments c m t)

  pub post_to_author-HasWeight :
      (p : Post)
      → Among p lake.posts
      → PostIn lake.posts p
      → row_hits s d b (post_to_author names lake.posts lake.comments p) ≡ true
      → HasWeight 1
  unfolding post_to_author touches_post
  post_to_author-HasWeight p m h t =
      let e =
        row_hits-is_hit s d b (post_node p.id) (user_node p.author_id)
          (post_to_author names lake.posts lake.comments p) (prefix_plain 66 p.id h.1)
          (prefix_plain 85 p.author_id h.2) in
      post_touched p m h (or_right _ _ (sym e ∙ t))

  pub author_to_post-HasWeight :
      (p : Post)
      → Among p lake.posts
      → PostIn lake.posts p
      → row_hits s d b (author_to_post names lake.posts lake.comments p) ≡ true
      → HasWeight 1
  unfolding author_to_post touches_post
  author_to_post-HasWeight p m h t =
      let e =
        row_hits-is_hit s d b (user_node p.author_id) (post_node p.id)
          (author_to_post names lake.posts lake.comments p) (prefix_plain 85 p.author_id h.2)
          (prefix_plain 66 p.id h.1) in
      post_touched p m h (or_left _ _ (sym e ∙ t))

  comment_row_touched :
      (c : Comment)
      → Among c lake.comments
      → CommentIn lake.posts lake.comments c
      → touches_row names lake.posts lake.comments s d b c ≡ true
      → HasWeight 1
  unfolding touches_comment
  comment_row_touched c m h t = (
    comment_touched c m (or_right _ _ (or_right _ _ t)),
    touches_row-weight names lake.posts lake.comments s d b c h.found t,
  )

  pub comment_to_author-HasWeight :
      (c : Comment)
      → Among c lake.comments
      → CommentIn lake.posts lake.comments c
      → row_hits s d b (comment_to_author names lake.posts lake.comments c) ≡ true
      → HasWeight 1
  unfolding comment_to_author
  comment_to_author-HasWeight c m h t =
      let e =
        row_hits-is_hit s d b (comment_node c.id) (user_node c.author_id)
          (comment_to_author names lake.posts lake.comments c) (prefix_plain 67 c.id h.plain.0)
          (prefix_plain 85 c.author_id h.plain.1) in
      comment_row_touched c m h (or_right _ _ (sym e ∙ t))

  pub author_to_comment-HasWeight :
      (c : Comment)
      → Among c lake.comments
      → CommentIn lake.posts lake.comments c
      → row_hits s d b (author_to_comment names lake.posts lake.comments c) ≡ true
      → HasWeight 1
  unfolding author_to_comment
  author_to_comment-HasWeight c m h t =
      let e =
        row_hits-is_hit s d b (user_node c.author_id) (comment_node c.id)
          (author_to_comment names lake.posts lake.comments c)
          (prefix_plain 85 c.author_id h.plain.1) (prefix_plain 67 c.id h.plain.0) in
      comment_row_touched c m h (or_left _ _ (sym e ∙ t))
