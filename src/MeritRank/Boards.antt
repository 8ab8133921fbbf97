-- ===== src/MeritRank/Boards.antt =====
-- The weights (meritmolt/schema/ddl.py) under other names of submolts that give all posts the same boards.
use meritmolt.Prelude.{◌≡◌, refl, sym, ◌∙◌, inl, inr, ℕ, some, Option-cases, found_All, count_if}
use meritmolt.Text.{Text}
use meritmolt.MeritRank.{
  Post, Posts, Comments, Names, Lake, mm_get_board, post_board, has_post_id, find_post,
  find_comment, is_on_post, is_reply_to,
}
use meritmolt.MeritRank.Nodes.{Node, user_node, post_node, comment_node}
use meritmolt.MeritRank.Weights.{weight, from_post, to_post, from_comment, to_comment}
use meritmolt.MeritRank.Steady.{SameBoards, IsInStep}

module _ (names names' : Names) (posts : Posts) (same : SameBoards names names' posts) where
  found_board :
      (i : Text) (row : Post)
      → find_post posts i ≡ some row
      → mm_get_board names' row.submolt_id ≡ mm_get_board names row.submolt_id
  found_board i row e =
      found_All (λ p. mm_get_board names' p.submolt_id ≡ mm_get_board names p.submolt_id)
        (has_post_id i) posts row e same

  same_post_board : (i : Text) → post_board names' posts i ≡ post_board names posts i
  unfolding post_board
  same_post_board i = elim (Option-cases (find_post posts i)) [
    | inl n ↦ rw n refl
    | inr (row, e) ↦ rw e (found_board i row e)
  ]

  same_from_post :
      (a i b : Text)
      → from_post names' a b (find_post posts i) ≡ from_post names a b (find_post posts i)
  same_from_post a i b = elim (Option-cases (find_post posts i)) [
    | inl n ↦ rw n refl
    | inr (row, e) ↦ rw (e, found_board i row e) refl
  ]

  same_to_post :
      (a i b : Text) (n : ℕ)
      → to_post names' a b n (find_post posts i) ≡ to_post names a b n (find_post posts i)
  same_to_post a i b n = elim (Option-cases (find_post posts i)) [
    | inl m ↦ rw m refl
    | inr (row, e) ↦ rw (e, found_board i row e) refl
  ]

  same_from_comment :
      (comments : Comments) (a i b : Text)
      → from_comment names' a b posts (find_comment comments i)
        ≡ from_comment names a b posts (find_comment comments i)
  same_from_comment comments a i b = elim (Option-cases (find_comment comments i)) [
    | inl n ↦ rw n refl
    | inr (row, e) ↦ rw (e, same_post_board row.post_id) refl
  ]

  same_to_comment :
      (comments : Comments) (a i b : Text) (n : ℕ)
      → to_comment names' a b posts n (find_comment comments i)
        ≡ to_comment names a b posts n (find_comment comments i)
  same_to_comment comments a i b n = elim (Option-cases (find_comment comments i)) [
    | inl m ↦ rw m refl
    | inr (row, e) ↦ rw (e, same_post_board row.post_id) refl
  ]

  same_weight :
      (comments : Comments) (s d : Node) (b : Text)
      → weight names' posts comments s d b ≡ weight names posts comments s d b
  unfolding weight
  same_weight comments (post_node i) (user_node a) b = same_from_post a i b
  same_weight comments (user_node a) (post_node i) b =
      same_to_post a i b (count_if (is_on_post a i) comments)
  same_weight comments (comment_node i) (user_node a) b = same_from_comment comments a i b
  same_weight comments (user_node a) (comment_node i) b =
      same_to_comment comments a i b (count_if (is_reply_to a i) comments)
  same_weight comments (user_node i) (user_node j) b = refl
  same_weight comments (post_node i) (post_node j) b = refl
  same_weight comments (post_node i) (comment_node j) b = refl
  same_weight comments (comment_node i) (post_node j) b = refl
  same_weight comments (comment_node i) (comment_node j) b = refl

pub renamed-IsInStep :
    (names names' : Names) (lake : Lake)
    → SameBoards names names' lake.posts
    → IsInStep names lake
    → IsInStep names' lake
renamed-IsInStep names names' lake same h = record {
  sound = h.sound;
  agrees =
      λ s d b. h.agrees s d b ∙ sym (same_weight names names' lake.posts same lake.comments s d b);
}
