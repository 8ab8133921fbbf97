-- ===== src/MeritRank/Bulk/Counted.antt =====
-- The edges of meritrank_bulk_init (meritmolt/schema/ddl.py) that are counts: meritrank_init gives them the
-- same weights.
use meritmolt.Prelude.{
  ◌≡◌, refl, sym, ap, ◌∙◌, inl, inr, true, false, not, some, Among, find_if_passes, and_parts,
  Option-cases,
}
use meritmolt.Text.{Text, same_text, same_text_refl, same_text→≡}
use meritmolt.Subscriptions.{mm_pgmer_prefix}
use meritmolt.MeritRank.{
  Comment, Posts, Comments, Names, Lake, post_board, find_post, find_comment, has_comment_id,
  distinct_from_post, is_on_post, is_reply_to, has_parent,
}
use meritmolt.MeritRank.Nodes.{Node, user_node, post_node, comment_node, prefix_plain, is_hit}
use meritmolt.MeritRank.Touched.{
  HasParentIn, touches_comment, upvotes_post, upvotes_post-weight, upvotes_parent,
  upvotes_parent-weight,
}
use meritmolt.MeritRank.Sound.{CommentIn}
use meritmolt.Subscriptions.Edges.{IsPlain}
use meritmolt.MeritRank.Bulk.{
  same_upvote, upvote_edge, on_others, has_post, answers_other, parent_row, parent_id_of,
  reply_edge,
}
use meritmolt.MeritRank.Bulk.Groups.{count_if-keep_if, nonzero-count_if}
use meritmolt.MeritRank.Bulk.Rows.{
  row_hits, row_hits-is_hit, or_left, or_right, HasWeight, comment_touched,
}

-- A row of the same author and post is on another's post too.
same_upvote-on_others :
    (posts : Posts) (c x : Comment)
    → on_others posts c ≡ true
    → is_on_post c.author_id c.post_id x ≡ true
    → on_others posts x ≡ true
same_upvote-on_others posts c x h t =
    let (a, p) = and_parts (same_text x.author_id c.author_id) (same_text x.post_id c.post_id) t in
    rw (same_text→≡ x.author_id c.author_id a, same_text→≡ x.post_id c.post_id p) h

-- The parent of a reply.
pub record Answered (posts : Posts) (comments : Comments) (c : Comment) : Type 0 where
  pub parent_id : Text
  pub is_parent : c.parent_id ≡ some parent_id
  pub row : Comment
  pub found : find_comment comments parent_id ≡ some row
  pub same_post : row.post_id ≡ c.post_id
  pub same_id : row.id ≡ parent_id
  pub other : not (same_text c.author_id row.author_id) ≡ true
  pub plain_id : IsPlain parent_id

pub answered :
    (posts : Posts) (comments : Comments) (c : Comment)
    → CommentIn posts comments c
    → answers_other posts c.author_id (parent_row comments c.parent_id) ≡ true
    → Answered posts comments c
answered posts comments c h t = elim (Option-cases c.parent_id) [
  | inl n ↦ absurd (let e : false ≡ true = rw n at t in cc)
  | inr (i, e) ↦
      let parent : HasParentIn comments c.post_id (some i) = rw e at h.parent in
      let (row, found, same) = parent in
      let u : answers_other posts c.author_id (find_comment comments i) ≡ true = rw e at t in
      let v : answers_other posts c.author_id (some row) ≡ true = rw found at u in
      record {
        parent_id = i;
        is_parent = e;
        row = row;
        found = found;
        same_post = same;
        same_id = same_text→≡ row.id i (find_if_passes (has_comment_id i) comments row found);
        other =
            (and_parts (has_post posts row.post_id) (not (same_text c.author_id row.author_id))
              v).1;
        plain_id = rw e at h.plain.3;
      }
]

-- A row of the same author and parent answers another too.
same_reply-answers :
    (posts : Posts) (comments : Comments) (author : Text) (row x : Comment) (i : Text)
    → find_comment comments i ≡ some row
    → answers_other posts author (some row) ≡ true
    → is_reply_to author i x ≡ true
    → answers_other posts x.author_id (parent_row comments x.parent_id) ≡ true
same_reply-answers posts comments author row x i found h t =
    let (a, p) = and_parts (same_text x.author_id author) (has_parent x.parent_id i) t in
    elim (Option-cases x.parent_id) [
      | inl n ↦ absurd (let e : false ≡ true = rw n at p in cc)
      | inr (j, e) ↦
          let q : same_text j i ≡ true = rw e at p in
          rw (e, same_text→≡ j i q, found, same_text→≡ x.author_id author a) h
    ]

module _ (names : Names) (lake : Lake) (s d : Node) (b : Text) where
  pub upvote_edge-HasWeight :
      (c : Comment)
      → Among c lake.comments
      → CommentIn lake.posts lake.comments c
      → on_others lake.posts c ≡ true
      → row_hits s d b (upvote_edge names lake.posts lake.comments c) ≡ true
      → HasWeight names lake s d b (upvote_edge names lake.posts lake.comments c).weight
  unfolding upvote_edge touches_comment
  upvote_edge-HasWeight c m h o t =
      let posts = lake.posts in
      let comments = lake.comments in
      let e =
        row_hits-is_hit s d b (user_node c.author_id) (post_node c.post_id)
          (upvote_edge names posts comments c) (prefix_plain 85 c.author_id h.plain.1)
          (prefix_plain 66 c.post_id h.plain.2) in
      let other =
        (and_parts (has_post posts c.post_id)
          (distinct_from_post c.author_id (find_post posts c.post_id)) o).1 in
      let up : upvotes_post names posts comments s d b c ≡ true = rw other (sym e ∙ t) in
      let same =
        count_if-keep_if (same_upvote names posts comments c) (on_others posts) comments
          (λ x k. same_upvote-on_others posts c x o) in
      (
        comment_touched names lake s d b c m (or_right _ _ (or_left _ _ up)),
        upvotes_post-weight names posts comments s d b c h.post h.on_post up
            ∙ nonzero-count_if (is_on_post c.author_id c.post_id) comments c m
                (rw (same_text_refl c.author_id) (same_text_refl c.post_id))
            ∙ ap (λ n. some n) (sym same),
      )

  pub reply_edge-HasWeight :
      (c : Comment)
      → Among c lake.comments
      → CommentIn lake.posts lake.comments c
      → answers_other lake.posts c.author_id (parent_row lake.comments c.parent_id) ≡ true
      → row_hits s d b (reply_edge names lake.posts lake.comments c) ≡ true
      → HasWeight names lake s d b (reply_edge names lake.posts lake.comments c).weight
  unfolding reply_edge touches_comment
  reply_edge-HasWeight c m h o t =
      let posts = lake.posts in
      let comments = lake.comments in
      let a = answered posts comments c h o in
      let i = a.parent_id in
      let row_of : parent_row comments c.parent_id ≡ some a.row = rw (a.is_parent, a.found) refl in
      let id_of : parent_id_of (parent_row comments c.parent_id) ≡ i = rw row_of a.same_id in
      let e =
        row_hits-is_hit s d b (user_node c.author_id) (comment_node i)
          (reply_edge names posts comments c) (prefix_plain 85 c.author_id h.plain.1)
          (ap (mm_pgmer_prefix 67) id_of ∙ prefix_plain 67 i a.plain_id) in
      let on_board : is_hit s d b (user_node c.author_id) (comment_node i)
            (post_board names posts c.post_id)
          ≡ true =
        rw (row_of, a.same_post) at (sym e ∙ t) in
      let up : upvotes_parent names posts comments s d b c (some i) ≡ true =
        rw (a.found, a.other) on_board in
      let answers : answers_other posts c.author_id (some a.row) ≡ true = rw row_of at o in
      let same =
        count_if-keep_if (is_reply_to c.author_id i)
          (λ x. answers_other posts x.author_id (parent_row comments x.parent_id)) comments
          (λ x k. same_reply-answers posts comments c.author_id a.row x i a.found answers) in
      (
        comment_touched names lake s d b c m (
            or_left (upvotes_parent names posts comments s d b c c.parent_id) _
              (rw a.is_parent up)),
        upvotes_parent-weight names posts comments s d b c i (rw a.is_parent at h.parent) up
            ∙ nonzero-count_if (is_reply_to c.author_id i) comments c m
                (rw (same_text_refl c.author_id, a.is_parent) (same_text_refl i))
            ∙ ap (λ n. some n) (sym (rw id_of same)),
      )
