-- ===== src/MeritRank/Bulk/Agreement.antt =====
-- meritrank_bulk_init against meritrank_init (meritmolt/schema/ddl.py).
use meritmolt.Prelude.{
  ◌≡◌, refl, sym, ◌∙◌, inl, inr, ℕ, true, Option, some, List, [], ◌∷◌, ◌++◌, Among, All, All-from,
  Among-keep_if, any_of_found, find_if, find_if-Among, find_if_passes, find_if_missed, keep_if,
  Bool-cases, Option-cases,
}
use mathlib.Core.Option
use meritmolt.Text.{Text}
use meritmolt.Subscriptions.{Subscribe}
use meritmolt.Subscriptions.Edges.{edge_after}
use meritmolt.MeritRank.{Post, Comment, Names, Lake}
use meritmolt.MeritRank.Nodes.{Node, weight_after}
use meritmolt.MeritRank.Weights.{touches_post}
use meritmolt.MeritRank.Touched.{touches_comment}
use meritmolt.MeritRank.Sound.{IsSound}
use meritmolt.MeritRank.Rebuild.{is_touched, meritrank_init_over}
use meritmolt.MeritRank.Bulk.{
  BulkEdge, BulkCall, mr_reset, mr_sync, mr_bulk_load_edges, select, group_by, subscribe_edge,
  post_to_author, author_to_post, comment_to_author, author_to_comment, joined_comments, upvotes,
  same_upvote, upvote_edge, replies, same_reply, reply_edge, bulk_edges, init_subscribes, full_init,
  meritrank_bulk_init,
}
use meritmolt.MeritRank.Bulk.Rows.{row_hits}
use meritmolt.MeritRank.Bulk.Followed.{SubscribeIn}
use meritmolt.MeritRank.Bulk.Loaded.{bulk_edges-IsRebuilt}
use meritmolt.MeritRank.Bulk.Covered.{
  IsAmongst, left_rows, right_rows, or_cases, subscribe_row, post_row, comment_row, upvote_row,
}
use meritmolt.MeritRank.Bulk.Replies.{reply_row}

-- What MeritRank holds after the calls: mr_reset empties it, and mr_bulk_load_edges adds edges.
unfoldable pub held_after : List BulkCall → List BulkEdge → List BulkEdge
held_after [] held = held
held_after (mr_reset ∷ calls) held = held_after calls []
held_after (mr_sync msec ∷ calls) held = held_after calls held
held_after (mr_bulk_load_edges edges timeout ∷ calls) held = held_after calls (held ++ edges)

-- The weight of an edge among the rows.
abbrev pub weight_among : Node → Node → Text → List BulkEdge → Option ℕ
weight_among s d b rows =
    Option.map (λ (row : BulkEdge). row.weight) (find_if (row_hits s d b) rows)

-- ORDER BY keeps the rows.
pub record KeepsRows (order : List BulkEdge → List BulkEdge) : Type 0 where
  pub no_more : (rows : List BulkEdge) (row : BulkEdge) → Among row (order rows) → Among row rows
  pub no_less : (rows : List BulkEdge) (row : BulkEdge) → Among row rows → Among row (order rows)

module _ (names : Names) (lake : Lake) (subs : List Subscribe) (s d : Node) (b : Text)
    (sound : IsSound lake) where
  -- The rows of posts, then those of comments, counts and replies.
  abbrev IsSelected : Type 0
  IsSelected = IsAmongst s d b (bulk_edges names lake.posts lake.comments subs)

  -- The SELECTs of the UNION ALL from the second on.
  abbrev post_rows : List BulkEdge
  post_rows = select (post_to_author names lake.posts lake.comments) lake.posts

  abbrev own_post_rows : List BulkEdge
  own_post_rows = select (author_to_post names lake.posts lake.comments) lake.posts

  abbrev comment_rows : List BulkEdge
  comment_rows =
      select (comment_to_author names lake.posts lake.comments)
        (joined_comments names lake.posts lake.comments)

  abbrev own_comment_rows : List BulkEdge
  own_comment_rows =
      select (author_to_comment names lake.posts lake.comments)
        (joined_comments names lake.posts lake.comments)

  abbrev upvote_rows : List BulkEdge
  upvote_rows = select (upvote_edge names lake.posts lake.comments) (
      group_by (same_upvote names lake.posts lake.comments)
        (upvotes names lake.posts lake.comments))

  abbrev reply_rows : List BulkEdge
  reply_rows = select (reply_edge names lake.posts lake.comments) (
      group_by (same_reply names lake.posts lake.comments) (replies names lake.posts lake.comments))

  abbrev count_rows : List BulkEdge
  count_rows = upvote_rows ++ reply_rows

  abbrev of_comments : List BulkEdge
  of_comments = comment_rows ++ (own_comment_rows ++ count_rows)

  among_posts : IsAmongst s d b (post_rows ++ (own_post_rows ++ of_comments)) → IsSelected
  unfolding bulk_edges
  among_posts r =
      right_rows s d b (select subscribe_edge subs) (post_rows ++ (own_post_rows ++ of_comments)) r

  among_comments : IsAmongst s d b of_comments → IsSelected
  among_comments r = among_posts (
      right_rows s d b post_rows (own_post_rows ++ of_comments)
        (right_rows s d b own_post_rows of_comments r))

  among_counts : IsAmongst s d b count_rows → IsSelected
  among_counts r = among_comments (
      right_rows s d b comment_rows (own_comment_rows ++ count_rows)
        (right_rows s d b own_comment_rows count_rows r))

  post_selected : (p : Post) → Among p lake.posts → touches_post s d b names p ≡ true → IsSelected
  post_selected p m t = elim (post_row names lake s d b sound p m t) [
    | inl r ↦ among_posts (left_rows s d b post_rows (own_post_rows ++ of_comments) r)
    | inr r ↦ among_posts (
        right_rows s d b post_rows (own_post_rows ++ of_comments)
          (left_rows s d b own_post_rows of_comments r))
  ]

  comment_selected :
      (c : Comment)
      → Among c lake.comments
      → touches_comment names lake.posts lake.comments s d b c ≡ true
      → IsSelected
  unfolding touches_comment
  comment_selected c m t = elim (or_cases _ _ t) [
    | inl u ↦
        among_counts
          (right_rows s d b upvote_rows reply_rows (reply_row names lake sound s d b c m u))
    | inr v ↦ elim (or_cases _ _ v) [
      | inl u ↦
          among_counts
            (left_rows s d b upvote_rows reply_rows (upvote_row names lake s d b sound c m u))
      | inr u ↦ elim (comment_row names lake s d b sound c m u) [
        | inl r ↦ among_comments (left_rows s d b comment_rows (own_comment_rows ++ count_rows) r)
        | inr r ↦ among_comments (
            right_rows s d b comment_rows (own_comment_rows ++ count_rows)
              (left_rows s d b own_comment_rows count_rows r))
      ]
    ]
  ]

  touched_selected : is_touched names lake s d b ≡ true → IsSelected
  touched_selected t = elim (or_cases _ _ t) [
    | inl u ↦
        let (p, m, h) = any_of_found (touches_post s d b names) lake.posts u in post_selected p m h
    | inr u ↦
        let (c, m, h) =
          any_of_found (touches_comment names lake.posts lake.comments s d b) lake.comments u in
        comment_selected c m h
  ]

  -- An edge that meritrank_init leaves is selected.
  rebuilt_selected : (w : ℕ) → weight_after s d b (full_init names lake subs) ≡ some w → IsSelected
  unfolding bulk_edges edge_after
  rebuilt_selected w h = elim (Bool-cases (is_touched names lake s d b)) [
    | inl t ↦ touched_selected t
    | inr f ↦
        let over = meritrank_init_over names lake s d b (init_subscribes subs []) sound in
        let e : weight_after s d b (init_subscribes subs []) ≡ some w = sym (rw f at over) ∙ h in
        elim (subscribe_row s d b subs [] w e) [
          | inl r ↦
              left_rows s d b (select subscribe_edge subs)
                (post_rows ++ (own_post_rows ++ of_comments)) r
          | inr n ↦ absurd (cc)
        ]
  ]

-- Let the ids have no prefix, the keys and foreign keys hold, and each comment's parent be on its post. Then meritrank_bulk_init, whatever MeritRank holds
-- before, leaves each edge between two nodes on each board with the weight that meritrank_init gives it when
-- run on an empty MeritRank, and no two edges that it loads for the same nodes and board differ in
-- their weights.
pub bulk_init-agrees :
    (order : List BulkEdge → List BulkEdge) (names : Names) (lake : Lake) (subs : List Subscribe)
    (timeout_msec : ℕ) (before : List BulkEdge) (s d : Node) (b : Text)
    → KeepsRows order
    → IsSound lake
    → All (SubscribeIn subs) subs
    → let held = held_after (meritrank_bulk_init order names lake subs timeout_msec).0 before in
      let rebuilt = weight_after s d b (full_init names lake subs) in
      (weight_among s d b held ≡ rebuilt)
      × All (λ row. rebuilt ≡ some row.weight) (keep_if (row_hits s d b) held)
unfolding meritrank_bulk_init held_after
bulk_init-agrees order names lake subs timeout_msec before s d b keeps sound follows =
    let held = order (bulk_edges names lake.posts lake.comments subs) in
    let rebuilt = weight_after s d b (full_init names lake subs) in
    let weighs : (row : BulkEdge)
        → Among row held
        → row_hits s d b row ≡ true
        → rebuilt ≡ some row.weight =
      λ row m t.
        bulk_edges-IsRebuilt names lake subs s d b sound row follows (keeps.no_more _ row m) t in
    (
      elim (Option-cases (find_if (row_hits s d b) held)) [
        | inr (row, e) ↦ rw e (
            sym (
              weighs row (find_if-Among (row_hits s d b) held row e)
                (find_if_passes (row_hits s d b) held row e)))
        | inl n ↦ elim (Option-cases rebuilt) [
          | inl f ↦ rw (n, f) refl
          | inr (w, f) ↦
              let (row, m, t) = rebuilt_selected names lake subs s d b sound w f in
              absurd (find_if_missed (row_hits s d b) held row n (keeps.no_less _ row m) t)
        ]
      ],
      All-from _ (keep_if (row_hits s d b) held)
          (λ row m. let (k, t) = Among-keep_if (row_hits s d b) held row m in weighs row k t),
    )
