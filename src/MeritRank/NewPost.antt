-- ===== src/MeritRank/NewPost.antt =====
-- A post that is inserted: its keys, and the weights that its calls (meritmolt/schema/ddl.py) leave alone.
use meritmolt.Prelude.{
  ◌≡◌, refl, sym, ◌∙◌, true, false, ◌&&◌, none, some, [], ◌∷◌, ◌++◌, count_if, find_if-append,
  find_if-snoc, All, All-map, All-append, count_if-zero, found_All, and_parts, Bool-cases,
  Option-cases, inl, inr,
}
use meritmolt.Text.{Text, same_text, same_text_refl, same_text→≡}
use meritmolt.Subscriptions.Edges.{IsPlain}
use meritmolt.MeritRank.{
  Post, Posts, Comments, Names, mm_get_board, post_board, has_post_id, has_comment_id, find_post,
  find_comment, is_on_post,
}
use meritmolt.MeritRank.Nodes.{Node, user_node, post_node, comment_node}
use meritmolt.MeritRank.Weights.{weight, touches_post}
use meritmolt.MeritRank.Sound.{PostIn, CommentIn, with_true, same_text_sym}

module _ (posts : Posts) (p : Post) (fresh : find_post posts p.id ≡ none) where
  abbrev pub with_post : Posts
  with_post = posts ++ p ∷ []

  pub new_post-found : find_post with_post p.id ≡ some p
  new_post-found = rw (find_if-snoc (has_post_id p.id) posts p fresh, same_text_refl p.id) refl

  old_post-found :
      (i : Text) (row : Post) → find_post posts i ≡ some row → find_post with_post i ≡ some row
  old_post-found i row e = find_if-append (has_post_id i) posts (p ∷ []) row e

  pub post_board_kept :
      (names : Names) (i : Text) (row : Post)
      → find_post posts i ≡ some row
      → post_board names with_post i ≡ post_board names posts i
  unfolding post_board
  post_board_kept names i row e = rw (old_post-found i row e, e) refl

  pub new_post-PostIn :
      IsPlain p.id
      → IsPlain p.author_id
      → All (PostIn posts) posts
      → All (PostIn with_post) with_post
  new_post-PostIn h k sound =
      All-append (PostIn with_post) posts (p ∷ [])
        (All-map (PostIn posts) (PostIn with_post) posts
          (λ q (e, x, y). (old_post-found q.id q e, x, y)) sound)
        ((new_post-found, h, k), tt)

  pub new_post-CommentIn :
      (comments rest : Comments)
      → All (CommentIn posts comments) rest
      → All (CommentIn with_post comments) rest
  new_post-CommentIn comments rest sound =
      All-map (CommentIn posts comments) (CommentIn with_post comments) rest
        (λ c k. record {
          found = k.found;
          post = k.post;
          on_post = old_post-found c.post_id k.post k.on_post;
          parent = k.parent;
          plain = k.plain;
        })
        sound

  module _ (names : Names) (comments : Comments) (sound : All (CommentIn posts comments) comments)
      (a i b : Text) where
    -- A comment stands on a post that is there.
    uncounted : find_post posts i ≡ none → count_if (is_on_post a i) comments ≡ 0
    uncounted n = count_if-zero (is_on_post a i) comments (
        All-map (CommentIn posts comments) (λ c. is_on_post a i c ≡ false) comments
          (λ c k. elim (Bool-cases (is_on_post a i c)) [
            | inr f ↦ f
            | inl t ↦
                let (x, y) = and_parts (same_text c.author_id a) (same_text c.post_id i) t in
                let e = rw (same_text→≡ c.post_id i y) at k.on_post in absurd (cc (sym n ∙ e))
          ])
          sound)

    kept_from_post :
        touches_post (post_node i) (user_node a) b names p ≡ false
        → weight names with_post comments (post_node i) (user_node a) b
          ≡ weight names posts comments (post_node i) (user_node a) b
    unfolding weight touches_post
    kept_from_post t = elim (Option-cases (find_post posts i)) [
      | inr (row, e) ↦ rw (e, old_post-found i row e) refl
      | inl n ↦ elim (Bool-cases (same_text p.id i)) [
        | inr f ↦ rw (find_if-snoc (has_post_id i) posts p n, n, f) refl
        | inl u ↦
            let f =
              with_true (same_text p.id i)
                (same_text p.author_id a && same_text (mm_get_board names p.submolt_id) b) t u in
            rw (find_if-snoc (has_post_id i) posts p n, n, u, f) refl
      ]
    ]

    kept_to_post :
        touches_post (user_node a) (post_node i) b names p ≡ false
        → weight names with_post comments (user_node a) (post_node i) b
          ≡ weight names posts comments (user_node a) (post_node i) b
    unfolding weight touches_post
    kept_to_post t = elim (Option-cases (find_post posts i)) [
      | inr (row, e) ↦ rw (e, old_post-found i row e) refl
      | inl n ↦ elim (Bool-cases (same_text p.id i)) [
        | inr f ↦ rw (find_if-snoc (has_post_id i) posts p n, n, f) refl
        | inl u ↦ elim (Bool-cases (same_text (mm_get_board names p.submolt_id) b)) [
          | inr f ↦ rw (find_if-snoc (has_post_id i) posts p n, n, u, f) refl
          | inl board ↦ elim (Bool-cases (same_text a p.author_id)) [
            | inr other ↦
                rw (find_if-snoc (has_post_id i) posts p n, n, u, board, other, uncounted n) refl
            | inl own ↦
                let g : true ≡ false = rw (same_text_sym p.author_id a, own, u, board) at t in
                absurd (let q : true ≡ false = g in cc)
          ]
        ]
      ]
    ]

    kept_from_comment :
        weight names with_post comments (comment_node i) (user_node a) b
        ≡ weight names posts comments (comment_node i) (user_node a) b
    unfolding weight
    kept_from_comment = elim (Option-cases (find_comment comments i)) [
      | inl n ↦ rw n refl
      | inr (row, e) ↦
          let k = found_All (CommentIn posts comments) (has_comment_id i) comments row e sound in
          rw (e, post_board_kept names row.post_id k.post k.on_post) refl
    ]

    kept_to_comment :
        weight names with_post comments (user_node a) (comment_node i) b
        ≡ weight names posts comments (user_node a) (comment_node i) b
    unfolding weight
    kept_to_comment = elim (Option-cases (find_comment comments i)) [
      | inl n ↦ rw n refl
      | inr (row, e) ↦
          let k = found_All (CommentIn posts comments) (has_comment_id i) comments row e sound in
          rw (e, post_board_kept names row.post_id k.post k.on_post) refl
    ]

  -- An edge that the calls are not about keeps its weight.
  pub new_post-weight :
      (names : Names) (comments : Comments) (s d : Node) (b : Text)
      → All (CommentIn posts comments) comments
      → touches_post s d b names p ≡ false
      → weight names with_post comments s d b ≡ weight names posts comments s d b
  unfolding weight
  new_post-weight names comments (post_node i) (user_node a) b h t =
      kept_from_post names comments h a i b t
  new_post-weight names comments (user_node a) (post_node i) b h t =
      kept_to_post names comments h a i b t
  new_post-weight names comments (comment_node i) (user_node a) b h t =
      kept_from_comment names comments h a i b
  new_post-weight names comments (user_node a) (comment_node i) b h t =
      kept_to_comment names comments h a i b
  new_post-weight names comments (user_node i) (user_node j) b h t = refl
  new_post-weight names comments (post_node i) (post_node j) b h t = refl
  new_post-weight names comments (post_node i) (comment_node j) b h t = refl
  new_post-weight names comments (comment_node i) (post_node j) b h t = refl
  new_post-weight names comments (comment_node i) (comment_node j) b h t = refl
