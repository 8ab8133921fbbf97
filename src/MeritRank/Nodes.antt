-- ===== src/MeritRank/Nodes.antt =====
-- The nodes of MeritRank's graph, and what one trigger's calls (meritmolt/schema/ddl.py) make of an edge.
use meritmolt.Prelude.{
  ℕ, ◌≡◌, refl, Bool, false, ◌&&◌, Option, none, some, List, [], ◌∷◌, ◌==◌, count_if, if◌then◌else◌,
  Bool-cases, inl, inr,
}
use meritmolt.Text.{Text, same_text}
use meritmolt.Subscriptions.{Call, put_edge, delete_edge, mm_pgmer_prefix}
use meritmolt.Subscriptions.Edges.{IsPlain, edge_after}
use meritmolt.MeritRank.{
  Post, Posts, Comments, Names, mm_get_board, find_post, find_comment, distinct_from_post,
  distinct_from_comment, is_counted, is_on_post, is_reply_to, put_count,
  mm_sync_comment_upvote_edge, mm_sync_reply_upvote_edge, put_author, notify_post_insert,
}

pub data Node : Type 0 where
  user_node post_node comment_node : Text → Node

abbrev pub label : Node → Text
label (user_node i) = 85 ∷ i
label (post_node i) = 66 ∷ i
label (comment_node i) = 67 ∷ i

abbrev pub same_node : Node → Node → Bool
same_node (user_node i) (user_node j) = same_text i j
same_node (user_node i) (post_node j) = false
same_node (user_node i) (comment_node j) = false
same_node (post_node i) (user_node j) = false
same_node (post_node i) (post_node j) = same_text i j
same_node (post_node i) (comment_node j) = false
same_node (comment_node i) (user_node j) = false
same_node (comment_node i) (post_node j) = false
same_node (comment_node i) (comment_node j) = same_text i j

pub same_label : (x s : Node) → same_text (label x) (label s) ≡ same_node x s
unfolding same_text
same_label (user_node i) (user_node j) = refl
same_label (user_node i) (post_node j) = refl
same_label (user_node i) (comment_node j) = refl
same_label (post_node i) (user_node j) = refl
same_label (post_node i) (post_node j) = refl
same_label (post_node i) (comment_node j) = refl
same_label (comment_node i) (user_node j) = refl
same_label (comment_node i) (post_node j) = refl
same_label (comment_node i) (comment_node j) = refl

-- The id gets its prefix.
pub prefix_plain : (k : ℕ) (i : Text) → IsPlain i → mm_pgmer_prefix k i ≡ k ∷ i
unfolding mm_pgmer_prefix
prefix_plain k [] h = absurd h
prefix_plain k (c ∷ cs) h = rw h refl

-- A count as a weight: there is no edge where nothing is counted.
abbrev pub nonzero : ℕ → Option ℕ
nonzero n = if n == 0 then none else some n

-- An edge between nodes, on a board.
module _ (s d : Node) (b : Text) where
  abbrev pub is_hit : Node → Node → Text → Bool
  is_hit x y board = same_node x s && (same_node y d && same_text board b)

  abbrev pub weight_after : List Call → Option ℕ
  weight_after calls = edge_after (label s) (label d) b calls

  weight_after-put :
      (x y : Node) (w : ℕ) (board : Text) (t : ℕ) (calls : List Call)
      → weight_after (put_edge (label x) (label y) w board t ∷ calls)
        ≡ (if is_hit x y board then some w else weight_after calls)
  unfolding edge_after
  weight_after-put x y w board t calls = rw (same_label x s, same_label y d) refl

  weight_after-delete :
      (x y : Node) (board : Text) (calls : List Call)
      → weight_after (delete_edge (label x) (label y) board ∷ calls)
        ≡ (if is_hit x y board then none else weight_after calls)
  unfolding edge_after
  weight_after-delete x y board calls = rw (same_label x s, same_label y d) refl

  weight_after-put_count :
      (x y : Node) (n : ℕ) (board : Text) (t : ℕ) (calls : List Call)
      → weight_after (put_count (label x) (label y) n board t calls)
        ≡ (if is_hit x y board then nonzero n else weight_after calls)
  weight_after-put_count x y n board t calls = elim (Bool-cases (n == 0)) [
    | inl e ↦ rw e (weight_after-delete x y board calls)
    | inr e ↦ rw e (weight_after-put x y n board t calls)
  ]

  pub weight_after-put_author :
      (k : ℕ) (i : Text) (n : Node) (a board : Text) (t : ℕ) (calls : List Call)
      → mm_pgmer_prefix k i ≡ label n
      → IsPlain a
      → weight_after (put_author k i a board t calls) ≡ (
          if is_hit (user_node a) n board
          then some 1
          else if is_hit n (user_node a) board
          then some 1
          else weight_after calls)
  unfolding put_author
  weight_after-put_author k i n a board t calls e h =
      rw
        (
          e,
          prefix_plain 85 a h,
          weight_after-put (user_node a) n 1 board t
              (put_edge (label n) (label (user_node a)) 1 board 0 ∷ calls),
          weight_after-put n (user_node a) 1 board 0 calls,
        )
        refl

  pub weight_after-notify_post :
      (names : Names) (p : Post) (calls : List Call)
      → IsPlain p.id
      → IsPlain p.author_id
      → let board = mm_get_board names p.submolt_id in
        weight_after (notify_post_insert names p calls) ≡ (
          if is_hit (user_node p.author_id) (post_node p.id) board
          then some 1
          else if is_hit (post_node p.id) (user_node p.author_id) board
          then some 1
          else weight_after calls)
  unfolding notify_post_insert
  weight_after-notify_post names p calls h k =
      weight_after-put_author 66 p.id (post_node p.id) p.author_id (mm_get_board names p.submolt_id)
        p.ticker calls (prefix_plain 66 p.id h) k

  pub weight_after-sync_comment :
      (posts : Posts) (comments : Comments) (a p board : Text) (t : ℕ) (ex : Option Text)
      (calls : List Call)
      → IsPlain a
      → IsPlain p
      → weight_after (mm_sync_comment_upvote_edge posts comments a p board t ex calls) ≡ (
          if distinct_from_post a (find_post posts p) && is_hit (user_node a) (post_node p) board
          then nonzero (count_if (λ c. is_counted ex c && is_on_post a p c) comments)
          else weight_after calls)
  unfolding mm_sync_comment_upvote_edge
  weight_after-sync_comment posts comments a p board t ex calls h k =
      elim (Bool-cases (distinct_from_post a (find_post posts p))) [
        | inl e ↦
            rw (e, prefix_plain 85 a h, prefix_plain 66 p k)
              (weight_after-put_count (user_node a) (post_node p)
                (count_if (λ c. is_counted ex c && is_on_post a p c) comments) board t calls)
        | inr e ↦ rw e refl
      ]

  pub weight_after-sync_reply :
      (comments : Comments) (a p board : Text) (t : ℕ) (ex : Option Text) (calls : List Call)
      → IsPlain a
      → IsPlain p
      → weight_after (mm_sync_reply_upvote_edge comments a p board t ex calls) ≡ (
          if distinct_from_comment a (find_comment comments p)
            && is_hit (user_node a) (comment_node p) board
          then nonzero (count_if (λ c. is_counted ex c && is_reply_to a p c) comments)
          else weight_after calls)
  unfolding mm_sync_reply_upvote_edge
  weight_after-sync_reply comments a p board t ex calls h k =
      elim (Bool-cases (distinct_from_comment a (find_comment comments p))) [
        | inl e ↦
            rw (e, prefix_plain 85 a h, prefix_plain 67 p k)
              (weight_after-put_count (user_node a) (comment_node p)
                (count_if (λ c. is_counted ex c && is_reply_to a p c) comments) board t calls)
        | inr e ↦ rw e refl
      ]
