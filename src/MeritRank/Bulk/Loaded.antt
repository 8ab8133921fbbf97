-- ===== src/MeritRank/Bulk/Loaded.antt =====
-- Each edge that meritrank_bulk_init selects has the weight that meritrank_init gives it
-- (meritmolt/schema/ddl.py).
use meritmolt.Prelude.{
  ◌≡◌, ◌∙◌, inl, inr, ℕ, true, false, some, List, [], Among, All, Among-append, Among-keep_if,
}
use meritmolt.Text.{Text}
use meritmolt.Subscriptions.{Subscribe}
use meritmolt.MeritRank.{Comment, Names, Lake}
use meritmolt.MeritRank.Nodes.{Node, weight_after}
use meritmolt.MeritRank.Sound.{IsSound, post_in, comment_in}
use meritmolt.MeritRank.Rebuild.{is_touched, meritrank_init_over}
use meritmolt.MeritRank.Bulk.{
  BulkEdge, select, group_by, subscribe_edge, post_to_author, author_to_post, comment_to_author,
  author_to_comment, joined_comments, has_post, upvotes, same_upvote, upvote_edge, on_others,
  replies, same_reply, reply_edge, answers_other, parent_row, bulk_edges, init_subscribes,
  full_init,
}
use meritmolt.MeritRank.Bulk.Groups.{Among-select, group_by-Among}
use meritmolt.MeritRank.Bulk.Rows.{
  row_hits, HasWeight, post_to_author-HasWeight, author_to_post-HasWeight,
  comment_to_author-HasWeight, author_to_comment-HasWeight,
}
use meritmolt.MeritRank.Bulk.Counted.{upvote_edge-HasWeight, reply_edge-HasWeight}
use meritmolt.MeritRank.Bulk.Followed.{SubscribeIn, users_untouched, subscribe_edge-weight}

module _ (names : Names) (lake : Lake) (subs : List Subscribe) (s d : Node) (b : Text)
    (sound : IsSound lake) where
  -- The weight that meritrank_init leaves on the edge.
  abbrev pub IsRebuilt : ℕ → Type 0
  IsRebuilt w = weight_after s d b (full_init names lake subs) ≡ some w

  touched-IsRebuilt : (w : ℕ) → HasWeight names lake s d b w → IsRebuilt w
  touched-IsRebuilt w (t, e) =
      meritrank_init_over names lake s d b (init_subscribes subs []) sound ∙ (rw t e)

  followed-IsRebuilt :
      (r : Subscribe)
      → Among r subs
      → All (SubscribeIn subs) subs
      → row_hits s d b (subscribe_edge r) ≡ true
      → IsRebuilt r.amount
  followed-IsRebuilt r m h t =
      let (a, c, x, y, e) = subscribe_edge-weight subs s d b r m h t in
      let u : is_touched names lake s d b ≡ false = rw (x, y) (users_untouched names a c b lake) in
      meritrank_init_over names lake s d b (init_subscribes subs []) sound ∙ (rw u e)

  -- The rows of one SELECT.
  selected :
      {A : Type 0} (f : A → BulkEdge) (xs : List A) (row : BulkEdge)
      → ((x : A) → Among x xs → row_hits s d b (f x) ≡ true → IsRebuilt (f x).weight)
      → row_hits s d b row ≡ true
      → Among row (select f xs)
      → IsRebuilt row.weight
  selected f xs row h t m = let (x, k, e) = Among-select f xs row m in rw e (h x k (rw e at t))

  joined_row :
      (c : Comment)
      → Among c (joined_comments names lake.posts lake.comments)
      → Among c lake.comments
  joined_row c m = (Among-keep_if (λ x. has_post lake.posts x.post_id) lake.comments c m).0

  upvote_row :
      (c : Comment)
      → Among c (
          group_by
            (same_upvote names lake.posts lake.comments)
            (upvotes names lake.posts lake.comments))
      → row_hits s d b (upvote_edge names lake.posts lake.comments c) ≡ true
      → IsRebuilt (upvote_edge names lake.posts lake.comments c).weight
  upvote_row c m t =
      let (k, o) = Among-keep_if (on_others lake.posts) lake.comments c (
        group_by-Among (same_upvote names lake.posts lake.comments)
          (upvotes names lake.posts lake.comments) c m) in
      touched-IsRebuilt _
        (upvote_edge-HasWeight names lake s d b c k (comment_in lake sound c k) o t)

  reply_row :
      (c : Comment)
      → Among c (
          group_by
            (same_reply names lake.posts lake.comments)
            (replies names lake.posts lake.comments))
      → row_hits s d b (reply_edge names lake.posts lake.comments c) ≡ true
      → IsRebuilt (reply_edge names lake.posts lake.comments c).weight
  reply_row c m t =
      let (k, o) =
        Among-keep_if
          (λ x. answers_other lake.posts x.author_id (parent_row lake.comments x.parent_id))
          lake.comments c
          (group_by-Among (same_reply names lake.posts lake.comments)
            (replies names lake.posts lake.comments) c m) in
      touched-IsRebuilt _
        (reply_edge-HasWeight names lake s d b c k (comment_in lake sound c k) o t)

  pub bulk_edges-IsRebuilt :
      (row : BulkEdge)
      → All (SubscribeIn subs) subs
      → Among row (bulk_edges names lake.posts lake.comments subs)
      → row_hits s d b row ≡ true
      → IsRebuilt row.weight
  unfolding bulk_edges post_to_author author_to_post comment_to_author author_to_comment
  bulk_edges-IsRebuilt row h m t = elim (Among-append row _ _ m) [
    | inl a ↦ selected subscribe_edge subs row (λ r k u. followed-IsRebuilt r k h u) t a
    | inr m₁ ↦ elim (Among-append row _ _ m₁) [
      | inl a ↦
          selected (post_to_author names lake.posts lake.comments) lake.posts row
            (λ p k u.
              touched-IsRebuilt 1
                (post_to_author-HasWeight names lake s d b p k (post_in lake sound p k) u))
            t a
      | inr m₂ ↦ elim (Among-append row _ _ m₂) [
        | inl a ↦
            selected (author_to_post names lake.posts lake.comments) lake.posts row
              (λ p k u.
                touched-IsRebuilt 1
                  (author_to_post-HasWeight names lake s d b p k (post_in lake sound p k) u))
              t a
        | inr m₃ ↦ elim (Among-append row _ _ m₃) [
          | inl a ↦
              selected (comment_to_author names lake.posts lake.comments) _ row
                (λ c k u. touched-IsRebuilt 1 (
                  comment_to_author-HasWeight names lake s d b c (joined_row c k)
                    (comment_in lake sound c (joined_row c k)) u))
                t a
          | inr m₄ ↦ elim (Among-append row _ _ m₄) [
            | inl a ↦
                selected (author_to_comment names lake.posts lake.comments) _ row
                  (λ c k u. touched-IsRebuilt 1 (
                    author_to_comment-HasWeight names lake s d b c (joined_row c k)
                      (comment_in lake sound c (joined_row c k)) u))
                  t a
            | inr m₅ ↦ elim (Among-append row _ _ m₅) [
              | inl a ↦ selected (upvote_edge names lake.posts lake.comments) _ row upvote_row t a
              | inr a ↦ selected (reply_edge names lake.posts lake.comments) _ row reply_row t a
            ]
          ]
        ]
      ]
    ]
  ]
