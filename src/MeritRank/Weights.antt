-- ===== src/MeritRank/Weights.antt =====
-- The weights of MeritRank's edges as the tables mb_post and mb_comment say them, and the calls of the
-- triggers (meritmolt/schema/ddl.py) against them.
use meritmolt.Prelude.{
  ℕ, ◌≡◌, refl, sym, ◌∙◌, Bool, true, false, ◌&&◌, ◌||◌, Option, none, some, List, count_if,
  if◌then◌else◌, Bool-cases, inl, inr, and_parts,
}
use meritmolt.Text.{Text, same_text, same_text_refl, same_text→≡}
use meritmolt.Subscriptions.{Call}
use meritmolt.Subscriptions.Edges.{IsPlain}
use meritmolt.MeritRank.{
  Post, Comment, Posts, Comments, Names, mm_get_board, post_board, find_post, find_comment,
  is_on_post, is_reply_to, notify_post_insert,
}
use meritmolt.MeritRank.Nodes.{
  Node, user_node, post_node, comment_node, same_node, is_hit, weight_after, nonzero,
  weight_after-notify_post,
}

abbrev edge_if : Bool → Option ℕ
edge_if true = some 1
edge_if false = none

-- The edge of a user to a row of another's: what is counted; to an own row: 1.
abbrev pub upvote : Bool → Bool → ℕ → Option ℕ
upvote on_board own n = if on_board then (if own then some 1 else nonzero n) else none

module _ (names : Names) (a b : Text) where
  abbrev pub from_post : Option Post → Option ℕ
  from_post none = none
  from_post (some row) =
      edge_if (same_text row.author_id a && same_text (mm_get_board names row.submolt_id) b)

  abbrev pub to_post : ℕ → Option Post → Option ℕ
  to_post n none = none
  to_post n (some row) =
      upvote (same_text (mm_get_board names row.submolt_id) b) (same_text a row.author_id) n

  abbrev pub from_comment : Posts → Option Comment → Option ℕ
  from_comment posts none = none
  from_comment posts (some row) =
      edge_if (same_text row.author_id a && same_text (post_board names posts row.post_id) b)

  abbrev pub to_comment : Posts → ℕ → Option Comment → Option ℕ
  to_comment posts n none = none
  to_comment posts n (some row) =
      upvote (same_text (post_board names posts row.post_id) b) (same_text a row.author_id) n

-- The weight of the edge between two nodes on a board. A row and its author have edges of weight 1
-- both ways on the board of the post; a user has an edge to each post of another user, weighted by the number
-- of comments on it, and to each comment of another, weighted by the number of replies.
unfoldable pub weight : Names → Posts → Comments → Node → Node → Text → Option ℕ
weight names posts comments (post_node i) (user_node a) b = from_post names a b (find_post posts i)
weight names posts comments (user_node a) (post_node i) b =
    to_post names a b (count_if (is_on_post a i) comments) (find_post posts i)
weight names posts comments (comment_node i) (user_node a) b =
    from_comment names a b posts (find_comment comments i)
weight names posts comments (user_node a) (comment_node i) b =
    to_comment names a b posts (count_if (is_reply_to a i) comments) (find_comment comments i)
weight names posts comments (user_node i) (user_node j) b = none
weight names posts comments (post_node i) (post_node j) b = none
weight names posts comments (post_node i) (comment_node j) b = none
weight names posts comments (comment_node i) (post_node j) b = none
weight names posts comments (comment_node i) (comment_node j) b = none

same_node→≡ : (x s : Node) → same_node x s ≡ true → s ≡ x
same_node→≡ (user_node i) (user_node j) h = rw (same_text→≡ i j h) refl
same_node→≡ (user_node i) (post_node j) h = absurd (cc)
same_node→≡ (user_node i) (comment_node j) h = absurd (cc)
same_node→≡ (post_node i) (user_node j) h = absurd (cc)
same_node→≡ (post_node i) (post_node j) h = rw (same_text→≡ i j h) refl
same_node→≡ (post_node i) (comment_node j) h = absurd (cc)
same_node→≡ (comment_node i) (user_node j) h = absurd (cc)
same_node→≡ (comment_node i) (post_node j) h = absurd (cc)
same_node→≡ (comment_node i) (comment_node j) h = rw (same_text→≡ i j h) refl

module _ (s d : Node) (b : Text) where
  pub hit_equal :
      (x y : Node) (board : Text) → is_hit s d b x y board ≡ true → (s ≡ x) × (d ≡ y) × (b ≡ board)
  hit_equal x y board h =
      let (p, q) = and_parts (same_node x s) (same_node y d && same_text board b) h in
      let (u, v) = and_parts (same_node y d) (same_text board b) q in
      (same_node→≡ x s p, same_node→≡ y d u, sym (same_text→≡ board b v))

  -- The calls of a post are about the edge.
  unfoldable pub touches_post : Names → Post → Bool
  touches_post names p =
      let board = mm_get_board names p.submolt_id in
      is_hit s d b (user_node p.author_id) (post_node p.id) board
      || is_hit s d b (post_node p.id) (user_node p.author_id) board

  pub notify_post-weight :
      (names : Names) (posts : Posts) (comments : Comments) (p : Post) (calls : List Call)
      → find_post posts p.id ≡ some p
      → IsPlain p.id
      → IsPlain p.author_id
      → weight_after s d b (notify_post_insert names p calls) ≡ (
          if touches_post names p
          then weight names posts comments s d b
          else weight_after s d b calls)
  unfolding touches_post weight
  notify_post-weight names posts comments p calls found h k =
      let board = mm_get_board names p.submolt_id in
      weight_after-notify_post s d b names p calls h k
      ∙ elim (Bool-cases (is_hit s d b (user_node p.author_id) (post_node p.id) board)) [
        | inl t ↦
            let (x, y, z) = hit_equal (user_node p.author_id) (post_node p.id) board t in
            rw t (rw (x, y, z, found, same_text_refl board, same_text_refl p.author_id) refl)
        | inr f ↦ elim (Bool-cases (is_hit s d b (post_node p.id) (user_node p.author_id) board)) [
          | inl t ↦
              let (x, y, z) = hit_equal (post_node p.id) (user_node p.author_id) board t in
              rw (f, t) (rw (x, y, z, found, same_text_refl board, same_text_refl p.author_id) refl)
          | inr e ↦ rw (f, e) refl
        ]
      ]
