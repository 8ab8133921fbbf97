-- ===== src/MeritRank/Untouched.antt =====
-- Edges that no calls of meritrank_init (meritmolt/schema/ddl.py) are about: the tables say that there are none.
use meritmolt.Prelude.{
  ◌≡◌, refl, sym, true, false, ◌&&◌, none, find_if_passes, All, All-zip, count_if-zero, found_All,
  All-map, Bool-cases, Option-cases, inl, inr,
}
use meritmolt.Text.{Text, same_text, same_text_refl, same_text→≡}
use meritmolt.MeritRank.{
  Posts, Comments, Names, mm_get_board, post_board, has_post_id, has_comment_id, find_post,
  find_comment, is_on_post, is_reply_to,
}
use meritmolt.MeritRank.Nodes.{Node, user_node, post_node, comment_node}
use meritmolt.MeritRank.Weights.{weight, touches_post}
use meritmolt.MeritRank.Touched.{touches_comment}
use meritmolt.MeritRank.Sound.{
  CommentIn, with_true, untouched_parts, counted_touches, replied_touches,
}

module _ (names : Names) (posts : Posts) (comments : Comments) (s d : Node) (b : Text) where
  -- No calls are about the edge.
  pub record IsUntouched : Type 0 where
    pub by_posts : All (λ p. touches_post s d b names p ≡ false) posts
    pub by_comments : All (λ c. touches_comment names posts comments s d b c ≡ false) comments

module _ (names : Names) (posts : Posts) (comments : Comments) (a i b : Text) where
  untouched_from_post :
      IsUntouched names posts comments (post_node i) (user_node a) b
      → weight names posts comments (post_node i) (user_node a) b ≡ none
  unfolding weight touches_post
  untouched_from_post u = elim (Option-cases (find_post posts i)) [
    | inl n ↦ rw n refl
    | inr (row, e) ↦
        let t =
          found_All (λ p. touches_post (post_node i) (user_node a) b names p ≡ false)
            (has_post_id i) posts row e u.by_posts in
        let f =
          with_true (same_text row.id i)
            (same_text row.author_id a && same_text (mm_get_board names row.submolt_id) b) t
            (find_if_passes (has_post_id i) posts row e) in
        rw (e, f) refl
  ]

  untouched_from_comment :
      IsUntouched names posts comments (comment_node i) (user_node a) b
      → weight names posts comments (comment_node i) (user_node a) b ≡ none
  unfolding weight
  untouched_from_comment u = elim (Option-cases (find_comment comments i)) [
    | inl n ↦ rw n refl
    | inr (row, e) ↦
        let t =
          found_All
            (λ c. touches_comment names posts comments (comment_node i) (user_node a) b c ≡ false)
            (has_comment_id i) comments row e u.by_comments in
        let (x, y, z, w) =
          untouched_parts names posts comments (comment_node i) (user_node a) b row t in
        let f =
          with_true (same_text row.id i)
            (same_text row.author_id a && same_text (post_board names posts row.post_id) b) w
            (find_if_passes (has_comment_id i) comments row e) in
        rw (e, f) refl
  ]

  untouched_to_post :
      IsUntouched names posts comments (user_node a) (post_node i) b
      → weight names posts comments (user_node a) (post_node i) b ≡ none
  unfolding weight touches_post
  untouched_to_post u = elim (Option-cases (find_post posts i)) [
    | inl n ↦ rw n refl
    | inr (row, e) ↦ elim (Bool-cases (same_text (mm_get_board names row.submolt_id) b)) [
      | inr f ↦ rw (e, f) refl
      | inl board ↦ elim (Bool-cases (same_text a row.author_id)) [
        | inl own ↦
            let t =
              found_All (λ p. touches_post (user_node a) (post_node i) b names p ≡ false)
                (has_post_id i) posts row e u.by_posts in
            let g : true ≡ false =
              rw
                (
                  sym (same_text→≡ a row.author_id own),
                  same_text_refl a,
                  find_if_passes (has_post_id i) posts row e,
                  board,
                )
                at t in
            absurd (let q : true ≡ false = g in cc)
        | inr other ↦
            let none_counted = count_if-zero (is_on_post a i) comments (
              All-map
                (λ c. touches_comment names posts comments (user_node a) (post_node i) b c ≡ false)
                (λ c. is_on_post a i c ≡ false) comments
                (λ c t.
                  counted_touches names posts comments a i b row c e other board
                    (untouched_parts names posts comments (user_node a) (post_node i) b c t).1)
                u.by_comments) in
            rw (e, board, other, none_counted) refl
      ]
    ]
  ]

  untouched_to_comment :
      All (CommentIn posts comments) comments
      → IsUntouched names posts comments (user_node a) (comment_node i) b
      → weight names posts comments (user_node a) (comment_node i) b ≡ none
  unfolding weight
  untouched_to_comment sound u = elim (Option-cases (find_comment comments i)) [
    | inl n ↦ rw n refl
    | inr (row, e) ↦ elim (Bool-cases (same_text (post_board names posts row.post_id) b)) [
      | inr f ↦ rw (e, f) refl
      | inl board ↦ elim (Bool-cases (same_text a row.author_id)) [
        | inl own ↦
            let t =
              found_All
                (λ c.
                  touches_comment names posts comments (user_node a) (comment_node i) b c ≡ false)
                (has_comment_id i) comments row e u.by_comments in
            let z =
              (untouched_parts names posts comments (user_node a) (comment_node i) b row t).2 in
            let g : true ≡ false =
              rw
                (
                  sym (same_text→≡ a row.author_id own),
                  same_text_refl a,
                  find_if_passes (has_comment_id i) comments row e,
                  board,
                )
                at z in
            absurd (let q : true ≡ false = g in cc)
        | inr other ↦
            let none_counted = count_if-zero (is_reply_to a i) comments (
              All-zip (CommentIn posts comments)
                (λ c.
                  touches_comment names posts comments (user_node a) (comment_node i) b c ≡ false)
                (λ c. is_reply_to a i c ≡ false) comments
                (λ c k t.
                  replied_touches names posts comments a i b row c e k.parent other board
                    (untouched_parts names posts comments (user_node a) (comment_node i) b c t).0)
                sound u.by_comments) in
            rw (e, board, other, none_counted) refl
      ]
    ]
  ]

module _ (names : Names) (posts : Posts) (comments : Comments) (b : Text) where
  -- Where no calls are about an edge, the tables say that there is none.
  pub untouched_none :
      (s d : Node)
      → All (CommentIn posts comments) comments
      → IsUntouched names posts comments s d b
      → weight names posts comments s d b ≡ none
  unfolding weight
  untouched_none (post_node i) (user_node a) h u = untouched_from_post names posts comments a i b u
  untouched_none (user_node a) (post_node i) h u = untouched_to_post names posts comments a i b u
  untouched_none (comment_node i) (user_node a) h u =
      untouched_from_comment names posts comments a i b u
  untouched_none (user_node a) (comment_node i) h u =
      untouched_to_comment names posts comments a i b h u
  untouched_none (user_node i) (user_node j) h u = refl
  untouched_none (post_node i) (post_node j) h u = refl
  untouched_none (post_node i) (comment_node j) h u = refl
  untouched_none (comment_node i) (post_node j) h u = refl
  untouched_none (comment_node i) (comment_node j) h u = refl
