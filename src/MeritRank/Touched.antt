-- ===== src/MeritRank/Touched.antt =====
-- The calls of a comment's trigger (meritmolt/schema/ddl.py) against the weights that the tables say.
use meritmolt.Prelude.{
  ◌≡◌, refl, sym, ◌∙◌, Bool, true, false, not, ◌&&◌, ◌||◌, Option, none, some, List, count_if,
  arith, if◌then◌else◌, Bool-cases, inl, inr, and_parts,
}
use meritmolt.Text.{Text, same_text, same_text_refl}
use meritmolt.Subscriptions.{Call}
use meritmolt.Subscriptions.Edges.{IsPlain}
use meritmolt.MeritRank.{
  Post, Comment, Posts, Comments, Names, post_board, find_post, find_comment, distinct_from_post,
  distinct_from_comment, is_on_post, is_reply_to, mm_sync_comment_upvote_edge, sync_parent,
  put_author, notify_comment_insert,
}
use meritmolt.MeritRank.Nodes.{
  Node, user_node, post_node, comment_node, is_hit, weight_after, nonzero, prefix_plain,
  weight_after-put_author, weight_after-sync_comment, weight_after-sync_reply,
}
use meritmolt.MeritRank.Weights.{weight, hit_equal}

abbrev pub IsPlainParent : Option Text → Type 0
IsPlainParent none = Unit
IsPlainParent (some p) = IsPlain p

-- The parent is there, and is on the post.
abbrev pub HasParentIn : Comments → Text → Option Text → Type 0
HasParentIn comments post_id none = Unit
HasParentIn comments post_id (some p) =
    (row : Comment) × (find_comment comments p ≡ some row) × (row.post_id ≡ post_id)

not_own : (a author : Text) → not (same_text a author) ≡ true → same_text a author ≡ false
not_own a author h = ground arith

module _ (names : Names) (posts : Posts) (comments : Comments) (s d : Node) (b : Text) where
  -- The author's edge to the post.
  abbrev pub upvotes_post : Comment → Bool
  upvotes_post c =
      distinct_from_post c.author_id (find_post posts c.post_id)
      && is_hit s d b (user_node c.author_id) (post_node c.post_id)
          (post_board names posts c.post_id)

  -- The author's edge to the parent.
  abbrev pub upvotes_parent : Comment → Option Text → Bool
  upvotes_parent c none = false
  upvotes_parent c (some p) =
      distinct_from_comment c.author_id (find_comment comments p)
      && is_hit s d b (user_node c.author_id) (comment_node p) (post_board names posts c.post_id)

  abbrev pub touches_row : Comment → Bool
  touches_row c =
      let board = post_board names posts c.post_id in
      is_hit s d b (user_node c.author_id) (comment_node c.id) board
      || is_hit s d b (comment_node c.id) (user_node c.author_id) board

  -- The calls of a comment are about the edge.
  unfoldable pub touches_comment : Comment → Bool
  touches_comment c = upvotes_parent c c.parent_id || (upvotes_post c || touches_row c)

  pub upvotes_parent-weight :
      (c : Comment) (p : Text)
      → HasParentIn comments c.post_id (some p)
      → upvotes_parent c (some p) ≡ true
      → weight names posts comments s d b ≡ nonzero (count_if (is_reply_to c.author_id p) comments)
  unfolding weight
  upvotes_parent-weight c p (row, found, same) h =
      let board = post_board names posts c.post_id in
      let (e, t) =
        and_parts (distinct_from_comment c.author_id (find_comment comments p))
          (is_hit s d b (user_node c.author_id) (comment_node p) board) h in
      let (x, y, z) = hit_equal s d b (user_node c.author_id) (comment_node p) board t in
      let own : same_text c.author_id row.author_id ≡ false =
        not_own c.author_id row.author_id (rw found at e) in
      rw (x, y, z, found, same, same_text_refl board, own) refl

  pub upvotes_post-weight :
      (c : Comment) (row : Post)
      → find_post posts c.post_id ≡ some row
      → upvotes_post c ≡ true
      → weight names posts comments s d b
        ≡ nonzero (count_if (is_on_post c.author_id c.post_id) comments)
  unfolding weight post_board
  upvotes_post-weight c row found h =
      let board = post_board names posts c.post_id in
      let (e, t) =
        and_parts (distinct_from_post c.author_id (find_post posts c.post_id))
          (is_hit s d b (user_node c.author_id) (post_node c.post_id) board) h in
      let (x, y, z) = hit_equal s d b (user_node c.author_id) (post_node c.post_id) board t in
      let own : same_text c.author_id row.author_id ≡ false =
        not_own c.author_id row.author_id (rw found at e) in
      rw (x, y, z, found, same_text_refl, own) refl

  pub touches_row-weight :
      (c : Comment)
      → find_comment comments c.id ≡ some c
      → touches_row c ≡ true
      → weight names posts comments s d b ≡ some 1
  unfolding weight
  touches_row-weight c found h =
      let board = post_board names posts c.post_id in
      elim (Bool-cases (is_hit s d b (user_node c.author_id) (comment_node c.id) board)) [
        | inl t ↦
            let (x, y, z) = hit_equal s d b (user_node c.author_id) (comment_node c.id) board t in
            rw (x, y, z, found, same_text_refl board, same_text_refl c.author_id) refl
        | inr f ↦
            let (x, y, z) =
              hit_equal s d b (comment_node c.id) (user_node c.author_id) board (rw f at h) in
            rw (x, y, z, found, same_text_refl board, same_text_refl c.author_id) refl
      ]

  author_calls :
      (c : Comment) (calls : List Call)
      → find_comment comments c.id ≡ some c
      → IsPlain c.id
      → IsPlain c.author_id
      → weight_after s d b
          (put_author 67 c.id c.author_id (post_board names posts c.post_id) c.ticker calls)
        ≡ (if touches_row c then weight names posts comments s d b else weight_after s d b calls)
  author_calls c calls found h k =
      let board = post_board names posts c.post_id in
      weight_after-put_author s d b 67 c.id (comment_node c.id) c.author_id board c.ticker calls
        (prefix_plain 67 c.id h) k
      ∙ elim (Bool-cases (is_hit s d b (user_node c.author_id) (comment_node c.id) board)) [
        | inl t ↦ rw t (sym (touches_row-weight c found (rw t refl)))
        | inr f ↦
            elim (Bool-cases (is_hit s d b (comment_node c.id) (user_node c.author_id) board)) [
              | inl t ↦ rw (f, t) (sym (touches_row-weight c found (rw (f, t) refl)))
              | inr e ↦ rw (f, e) refl
            ]
      ]

  comment_calls :
      (c : Comment) (row : Post) (calls : List Call)
      → find_post posts c.post_id ≡ some row
      → IsPlain c.author_id
      → IsPlain c.post_id
      → weight_after s d b (
          mm_sync_comment_upvote_edge posts comments c.author_id c.post_id
            (post_board names posts c.post_id)
            c.ticker
            none
            calls)
        ≡ (if upvotes_post c then weight names posts comments s d b else weight_after s d b calls)
  comment_calls c row calls found h k =
      weight_after-sync_comment s d b posts comments c.author_id c.post_id
        (post_board names posts c.post_id) c.ticker none calls h k
      ∙ elim (Bool-cases (upvotes_post c)) [
        | inl t ↦ rw t (sym (upvotes_post-weight c row found t))
        | inr f ↦ rw f refl
      ]

  parent_calls :
      (c : Comment) (parent : Option Text) (calls : List Call)
      → HasParentIn comments c.post_id parent
      → IsPlain c.author_id
      → IsPlainParent parent
      → weight_after s d b
          (sync_parent comments c (post_board names posts c.post_id) parent none calls)
        ≡ (if upvotes_parent c parent
            then weight names posts comments s d b
            else weight_after s d b calls)
  parent_calls c none calls found h k = refl
  parent_calls c (some p) calls found h k =
      weight_after-sync_reply s d b comments c.author_id p (post_board names posts c.post_id)
        c.ticker none calls h k
      ∙ elim (Bool-cases (upvotes_parent c (some p))) [
        | inl t ↦ rw t (sym (upvotes_parent-weight c p found t))
        | inr f ↦ rw f refl
      ]

  -- The calls give every edge that they are about the weight that the tables say.
  pub notify_comment-weight :
      (c : Comment) (row : Post) (calls : List Call)
      → find_comment comments c.id ≡ some c
      → find_post posts c.post_id ≡ some row
      → HasParentIn comments c.post_id c.parent_id
      → IsPlain c.id × IsPlain c.author_id × IsPlain c.post_id × IsPlainParent c.parent_id
      → weight_after s d b (notify_comment_insert names posts comments c calls) ≡ (
          if touches_comment c then weight names posts comments s d b else weight_after s d b calls)
  unfolding notify_comment_insert touches_comment
  notify_comment-weight c row calls found on_post parent (h, k, l, m) =
      let board = post_board names posts c.post_id in
      let own = put_author 67 c.id c.author_id board c.ticker calls in
      let synced =
        mm_sync_comment_upvote_edge posts comments c.author_id c.post_id board c.ticker none own in
      parent_calls c c.parent_id synced parent k m
      ∙ elim (Bool-cases (upvotes_parent c c.parent_id)) [
        | inl t ↦ rw t refl
        | inr f ↦ rw f (
            comment_calls c row own on_post k l ∙ elim (Bool-cases (upvotes_post c)) [
              | inl t ↦ rw t refl
              | inr g ↦ rw g (author_calls c calls found h k)
            ])
      ]
