-- ===== src/MeritRank/NewComment.antt =====
-- A comment that is inserted: its keys, and the weights that its calls (meritmolt/schema/ddl.py) leave
-- alone.
use meritmolt.Prelude.{
  ◌≡◌, refl, sym, ◌∙◌, true, false, ◌&&◌, Option, none, some, [], ◌∷◌, ◌++◌, count_if,
  find_if-append, find_if-snoc, count_if-snoc_false, All, All-map, All-append, count_if-zero,
  and_parts, arith, Bool-cases, Option-cases, inl, inr,
}
use meritmolt.Text.{Text, same_text, same_text_refl, same_text→≡}
use meritmolt.Subscriptions.Edges.{IsPlain}
use meritmolt.MeritRank.{
  Post, Comment, Posts, Comments, Names, mm_get_board, post_board, has_comment_id, has_parent,
  find_post, find_comment, is_on_post, is_reply_to,
}
use meritmolt.MeritRank.Nodes.{Node, user_node, post_node, comment_node}
use meritmolt.MeritRank.Weights.{weight}
use meritmolt.MeritRank.Touched.{IsPlainParent, HasParentIn, touches_comment}
use meritmolt.MeritRank.Sound.{
  CommentIn, with_true, same_text_sym, untouched_parts, counted_touches, replied_touches,
}

module _ (posts : Posts) (comments : Comments) (c : Comment)
    (fresh : find_comment comments c.id ≡ none) where
  abbrev pub with_comment : Comments
  with_comment = comments ++ c ∷ []

  pub new_comment-found : find_comment with_comment c.id ≡ some c
  new_comment-found =
      rw (find_if-snoc (has_comment_id c.id) comments c fresh, same_text_refl c.id) refl

  pub old_comment-found :
      (i : Text) (row : Comment)
      → find_comment comments i ≡ some row
      → find_comment with_comment i ≡ some row
  old_comment-found i row e = find_if-append (has_comment_id i) comments (c ∷ []) row e

  HasParentIn-old :
      (post_id : Text) (parent : Option Text)
      → HasParentIn comments post_id parent
      → HasParentIn with_comment post_id parent
  HasParentIn-old post_id none h = tt
  HasParentIn-old post_id (some q) (row, e, same) = (row, old_comment-found q row e, same)

  pub new_comment-CommentIn :
      (row : Post)
      → find_post posts c.post_id ≡ some row
      → HasParentIn with_comment c.post_id c.parent_id
      → IsPlain c.id × IsPlain c.author_id × IsPlain c.post_id × IsPlainParent c.parent_id
      → CommentIn posts with_comment c
  new_comment-CommentIn row on_post parent plain = record {
    found = new_comment-found;
    post = row;
    on_post = on_post;
    parent = parent;
    plain = plain;
  }

  pub old_comments-CommentIn :
      All (CommentIn posts comments) comments
      → CommentIn posts with_comment c
      → All (CommentIn posts with_comment) with_comment
  old_comments-CommentIn sound own =
      All-append (CommentIn posts with_comment) comments (c ∷ [])
        (All-map (CommentIn posts comments) (CommentIn posts with_comment) comments
          (λ r k. record {
            found = old_comment-found r.id r k.found;
            post = k.post;
            on_post = k.on_post;
            parent = HasParentIn-old r.post_id r.parent_id k.parent;
            plain = k.plain;
          })
          sound)
        (own, tt)

  module _ (names : Names) (a i b : Text) where
    kept_to_post :
        touches_comment names posts with_comment (user_node a) (post_node i) b c ≡ false
        → weight names posts with_comment (user_node a) (post_node i) b
          ≡ weight names posts comments (user_node a) (post_node i) b
    unfolding weight
    kept_to_post t = elim (Option-cases (find_post posts i)) [
      | inl n ↦ rw n refl
      | inr (row, e) ↦ elim (Bool-cases (same_text (mm_get_board names row.submolt_id) b)) [
        | inr f ↦ rw (e, f) refl
        | inl board ↦ elim (Bool-cases (same_text a row.author_id)) [
          | inl own ↦ rw (e, board, own) refl
          | inr other ↦
              let f =
                counted_touches names posts with_comment a i b row c e other board
                  (untouched_parts names posts with_comment (user_node a) (post_node i) b c t).1 in
              rw (e, board, other, count_if-snoc_false (is_on_post a i) comments c f) refl
        ]
      ]
    ]

    kept_from_comment :
        touches_comment names posts with_comment (comment_node i) (user_node a) b c ≡ false
        → weight names posts with_comment (comment_node i) (user_node a) b
          ≡ weight names posts comments (comment_node i) (user_node a) b
    unfolding weight
    kept_from_comment t = elim (Option-cases (find_comment comments i)) [
      | inr (row, e) ↦ rw (e, old_comment-found i row e) refl
      | inl n ↦ elim (Bool-cases (same_text c.id i)) [
        | inr f ↦ rw (find_if-snoc (has_comment_id i) comments c n, n, f) refl
        | inl u ↦
            let w =
              (untouched_parts names posts with_comment (comment_node i) (user_node a) b c t).3 in
            let f =
              with_true (same_text c.id i)
                (same_text c.author_id a && same_text (post_board names posts c.post_id) b) w u in
            rw (find_if-snoc (has_comment_id i) comments c n, n, u, f) refl
      ]
    ]

    -- A reply is to a comment that is there.
    unreplied :
        (r : Comment) (parent : Option Text)
        → HasParentIn comments r.post_id parent
        → find_comment comments i ≡ none
        → (same_text r.author_id a && has_parent parent i) ≡ false
    unreplied r none h n = ground arith
    unreplied r (some q) (row, e, same) n =
        elim (Bool-cases (same_text r.author_id a && same_text q i)) [
          | inr f ↦ f
          | inl t ↦
              let (x, y) = and_parts (same_text r.author_id a) (same_text q i) t in
              let found = rw (same_text→≡ q i y) at e in absurd (cc (sym n ∙ found))
        ]

    new_unreplied :
        All (CommentIn posts comments) comments
        → find_comment comments i ≡ none
        → same_text a c.author_id ≡ false
        → count_if (is_reply_to a i) with_comment ≡ 0
    new_unreplied sound n other =
        count_if-snoc_false (is_reply_to a i) comments c
          (rw (same_text_sym c.author_id a, other) refl)
        ∙ count_if-zero (is_reply_to a i) comments (
            All-map (CommentIn posts comments) (λ r. is_reply_to a i r ≡ false) comments
              (λ r k. unreplied r r.parent_id k.parent n) sound)

    kept_to_comment :
        All (CommentIn posts comments) comments
        → CommentIn posts with_comment c
        → touches_comment names posts with_comment (user_node a) (comment_node i) b c ≡ false
        → weight names posts with_comment (user_node a) (comment_node i) b
          ≡ weight names posts comments (user_node a) (comment_node i) b
    unfolding weight
    kept_to_comment sound k t =
        let (x, y, z, w) =
          untouched_parts names posts with_comment (user_node a) (comment_node i) b c t in
        elim (Option-cases (find_comment comments i)) [
          | inr (row, e) ↦ elim (Bool-cases (same_text (post_board names posts row.post_id) b)) [
            | inr f ↦ rw (e, old_comment-found i row e, f) refl
            | inl board ↦ elim (Bool-cases (same_text a row.author_id)) [
              | inl own ↦ rw (e, old_comment-found i row e, board, own) refl
              | inr other ↦
                  let f =
                    replied_touches names posts with_comment a i b row c (old_comment-found i row e)
                      k.parent other board x in
                  rw
                    (
                      e,
                      old_comment-found i row e,
                      board,
                      other,
                      count_if-snoc_false (is_reply_to a i) comments c f,
                    )
                    refl
            ]
          ]
          | inl n ↦ elim (Bool-cases (same_text c.id i)) [
            | inr f ↦ rw (find_if-snoc (has_comment_id i) comments c n, n, f) refl
            | inl u ↦ elim (Bool-cases (same_text (post_board names posts c.post_id) b)) [
              | inr f ↦ rw (find_if-snoc (has_comment_id i) comments c n, n, u, f) refl
              | inl board ↦ elim (Bool-cases (same_text a c.author_id)) [
                | inr other ↦
                    rw
                      (
                        find_if-snoc (has_comment_id i) comments c n,
                        n,
                        u,
                        board,
                        other,
                        new_unreplied sound n other,
                      )
                      refl
                | inl own ↦
                    let g : true ≡ false = rw (same_text_sym c.author_id a, own, u, board) at z in
                    absurd (let q : true ≡ false = g in cc)
              ]
            ]
          ]
        ]

  -- An edge that the calls are not about keeps its weight.
  pub new_comment-weight :
      (names : Names) (s d : Node) (b : Text)
      → All (CommentIn posts comments) comments
      → CommentIn posts with_comment c
      → touches_comment names posts with_comment s d b c ≡ false
      → weight names posts with_comment s d b ≡ weight names posts comments s d b
  unfolding weight
  new_comment-weight names (post_node i) (user_node a) b h k t = refl
  new_comment-weight names (user_node a) (post_node i) b h k t = kept_to_post names a i b t
  new_comment-weight names (comment_node i) (user_node a) b h k t = kept_from_comment names a i b t
  new_comment-weight names (user_node a) (comment_node i) b h k t =
      kept_to_comment names a i b h k t
  new_comment-weight names (user_node i) (user_node j) b h k t = refl
  new_comment-weight names (post_node i) (post_node j) b h k t = refl
  new_comment-weight names (post_node i) (comment_node j) b h k t = refl
  new_comment-weight names (comment_node i) (post_node j) b h k t = refl
  new_comment-weight names (comment_node i) (comment_node j) b h k t = refl
