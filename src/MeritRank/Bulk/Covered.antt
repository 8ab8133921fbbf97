-- ===== src/MeritRank/Bulk/Covered.antt =====
-- Each edge that meritrank_init leaves is one that meritrank_bulk_init selects (meritmolt/schema/ddl.py).
use meritmolt.Prelude.{
  ◌≡◌, refl, sym, ap, ◌∙◌, ◌⊎◌, inl, inr, ℕ, Bool, true, false, ◌||◌, some, List, [], ◌∷◌, ◌++◌,
  Among, Among-left, Among-right, keep_if-Among, and_parts, Bool-cases,
}
use meritmolt.Text.{Text, same_text, same_text_refl, same_text→≡}
use meritmolt.Subscriptions.{Subscribe, Call, mm_pgmer_prefix, notify_put}
use meritmolt.Subscriptions.Edges.{edge_after}
use meritmolt.MeritRank.{Post, Comment, Names, Lake, post_board, find_post, distinct_from_post}
use meritmolt.MeritRank.Nodes.{
  Node, user_node, post_node, comment_node, prefix_plain, is_hit, weight_after,
}
use meritmolt.MeritRank.Weights.{touches_post}
use meritmolt.MeritRank.Touched.{upvotes_post, touches_row}
use meritmolt.MeritRank.Sound.{IsSound, post_in, comment_in}
use meritmolt.MeritRank.Bulk.{
  BulkEdge, select, group_by, subscribe_edge, post_to_author, author_to_post, comment_to_author,
  author_to_comment, joined_comments, has_post, upvotes, same_upvote, upvote_edge, on_others,
  init_subscribes,
}
use meritmolt.MeritRank.Bulk.Groups.{select-Among, group_found}
use meritmolt.MeritRank.Bulk.Rows.{row_hits, row_hits-is_hit}

pub or_cases : (p q : Bool) → (p || q) ≡ true → (p ≡ true) ⊎ (q ≡ true)
or_cases true q h = inl refl
or_cases false q h = inr h

-- A row about the edge.
module _ (s d : Node) (b : Text) where
  abbrev pub IsAmongst : List BulkEdge → Type 0
  IsAmongst rows = (row : BulkEdge) × Among row rows × (row_hits s d b row ≡ true)

  pub left_rows : (xs ys : List BulkEdge) → IsAmongst xs → IsAmongst (xs ++ ys)
  left_rows xs ys (row, m, t) = (row, Among-left row xs ys m, t)

  pub right_rows : (xs ys : List BulkEdge) → IsAmongst ys → IsAmongst (xs ++ ys)
  right_rows xs ys (row, m, t) = (row, Among-right row xs ys m, t)

  pub select_row :
      {A : Type 0} (f : A → BulkEdge) (xs : List A) (x : A)
      → Among x xs
      → row_hits s d b (f x) ≡ true
      → IsAmongst (select f xs)
  select_row f xs x m t = (f x, select-Among f xs x m, t)

  -- An edge that the loop over subscribe leaves.
  pub subscribe_row :
      (rest : List Subscribe) (calls : List Call) (w : ℕ)
      → weight_after s d b (init_subscribes rest calls) ≡ some w
      → IsAmongst (select subscribe_edge rest) ⊎ (weight_after s d b calls ≡ some w)
  unfolding init_subscribes edge_after notify_put
  subscribe_row [] calls w h = inr h
  subscribe_row (x ∷ rest) calls w h = elim (subscribe_row rest (notify_put x calls) w h) [
    | inl (row, m, t) ↦ inl (row, inr m, t)
    | inr e ↦ elim (Bool-cases (row_hits s d b (subscribe_edge x))) [
      | inl t ↦ inl (subscribe_edge x, inl refl, t)
      | inr f ↦ inr (rw f at e)
    ]
  ]

module _ (names : Names) (lake : Lake) (s d : Node) (b : Text) (sound : IsSound lake) where
  -- An edge that the calls of a post are about.
  pub post_row :
      (p : Post)
      → Among p lake.posts
      → touches_post s d b names p ≡ true
      → IsAmongst s d b (select (post_to_author names lake.posts lake.comments) lake.posts)
        ⊎ IsAmongst s d b (select (author_to_post names lake.posts lake.comments) lake.posts)
  unfolding touches_post post_to_author author_to_post
  post_row p m t =
      let (found, k, l) = post_in lake sound p m in
      let there = author_to_post names lake.posts lake.comments in
      let back = post_to_author names lake.posts lake.comments in
      elim (or_cases _ _ t) [
        | inl u ↦ inr (
            select_row s d b there lake.posts p m (
              row_hits-is_hit s d b (user_node p.author_id) (post_node p.id) (there p)
                (prefix_plain 85 p.author_id l) (prefix_plain 66 p.id k)
              ∙ u))
        | inr u ↦ inl (
            select_row s d b back lake.posts p m (
              row_hits-is_hit s d b (post_node p.id) (user_node p.author_id) (back p)
                (prefix_plain 66 p.id k) (prefix_plain 85 p.author_id l)
              ∙ u))
      ]

  joined_row :
      (c : Comment)
      → Among c lake.comments
      → Among c (joined_comments names lake.posts lake.comments)
  joined_row c m =
      keep_if-Among (λ x. has_post lake.posts x.post_id) lake.comments c m
        (rw (comment_in lake sound c m).on_post refl)

  -- An edge between a comment and its author.
  pub comment_row :
      (c : Comment)
      → Among c lake.comments
      → touches_row names lake.posts lake.comments s d b c ≡ true
      → IsAmongst s d b (
          select
            (comment_to_author names lake.posts lake.comments)
            (joined_comments names lake.posts lake.comments))
        ⊎ IsAmongst s d b (
            select
              (author_to_comment names lake.posts lake.comments)
              (joined_comments names lake.posts lake.comments))
  unfolding comment_to_author author_to_comment
  comment_row c m t =
      let (k, l, n, o) = (comment_in lake sound c m).plain in
      let there = author_to_comment names lake.posts lake.comments in
      let back = comment_to_author names lake.posts lake.comments in
      elim (or_cases _ _ t) [
        | inl u ↦ inr (
            select_row s d b there _ c (joined_row c m) (
              row_hits-is_hit s d b (user_node c.author_id) (comment_node c.id) (there c)
                (prefix_plain 85 c.author_id l) (prefix_plain 67 c.id k)
              ∙ u))
        | inr u ↦ inl (
            select_row s d b back _ c (joined_row c m) (
              row_hits-is_hit s d b (comment_node c.id) (user_node c.author_id) (back c)
                (prefix_plain 67 c.id k) (prefix_plain 85 c.author_id l)
              ∙ u))
      ]

  upvote_chain :
      (x y z : Comment)
      → same_upvote names lake.posts lake.comments x y ≡ true
      → same_upvote names lake.posts lake.comments y z ≡ true
      → same_upvote names lake.posts lake.comments x z ≡ true
  upvote_chain x y z h k =
      let (p, q) =
        and_parts (same_text y.author_id x.author_id) (same_text y.post_id x.post_id) h in
      let e = same_text→≡ y.author_id x.author_id p in
      let f = same_text→≡ y.post_id x.post_id q in rw (← e, ← f) k

  upvote_self : (x : Comment) → same_upvote names lake.posts lake.comments x x ≡ true
  upvote_self x = rw (same_text_refl x.author_id) (same_text_refl x.post_id)

  -- The author's edge to another's post.
  pub upvote_row :
      (c : Comment)
      → Among c lake.comments
      → upvotes_post names lake.posts lake.comments s d b c ≡ true
      → IsAmongst s d b (
          select (upvote_edge names lake.posts lake.comments) (
            group_by
              (same_upvote names lake.posts lake.comments)
              (upvotes names lake.posts lake.comments)))
  unfolding upvote_edge
  upvote_row c m t =
      let posts = lake.posts in
      let comments = lake.comments in
      let rows = upvotes names posts comments in
      let same = same_upvote names posts comments in
      let h = comment_in lake sound c m in
      let (other, hit) =
        and_parts (distinct_from_post c.author_id (find_post posts c.post_id))
          (is_hit s d b (user_node c.author_id) (post_node c.post_id)
            (post_board names posts c.post_id))
          t in
      let on : has_post posts c.post_id ≡ true = rw h.on_post refl in
      let (x, k, u) =
        group_found same rows c (λ y _. upvote_self y) (λ y z w _ _. upvote_chain y z w)
          (keep_if-Among (on_others posts) comments c m (rw on other)) in
      let (p, q) =
        and_parts (same_text c.author_id x.author_id) (same_text c.post_id x.post_id) u in
      let e = same_text→≡ c.author_id x.author_id p in
      let f = same_text→≡ c.post_id x.post_id q in
      select_row s d b (upvote_edge names posts comments) _ x k (
        row_hits-is_hit s d b (user_node c.author_id) (post_node c.post_id)
          (upvote_edge names posts comments x)
          (ap (mm_pgmer_prefix 85) (sym e) ∙ prefix_plain 85 c.author_id h.plain.1)
          (ap (mm_pgmer_prefix 66) (sym f) ∙ prefix_plain 66 c.post_id h.plain.2)
        ∙ (rw (← f) hit))
