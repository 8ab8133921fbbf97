-- ===== src/MeritRank/Bulk/Replies.antt =====
-- The edges of replies that meritrank_init leaves are ones that meritrank_bulk_init selects
-- (meritmolt/schema/ddl.py).
use meritmolt.Prelude.{
  ◌≡◌, refl, sym, ap, ◌∙◌, inl, inr, Bool, true, false, not, some, Among, keep_if-Among,
  Among-keep_if, and_parts, Option-cases,
}
use meritmolt.Text.{Text, same_text, same_text_refl, same_text→≡}
use meritmolt.Subscriptions.{mm_pgmer_prefix}
use meritmolt.MeritRank.{
  Comment, Names, Lake, post_board, find_comment, distinct_from_comment, has_parent,
}
use meritmolt.MeritRank.Nodes.{Node, user_node, comment_node, prefix_plain, is_hit}
use meritmolt.MeritRank.Touched.{HasParentIn, upvotes_parent}
use meritmolt.MeritRank.Sound.{CommentIn, IsSound, comment_in}
use meritmolt.MeritRank.Bulk.{
  select, group_by, replies, same_reply, reply_edge, answers_other, parent_row, parent_id_of,
}
use meritmolt.MeritRank.Bulk.Groups.{group_found, group_by-Among}
use meritmolt.MeritRank.Bulk.Rows.{row_hits-is_hit}
use meritmolt.MeritRank.Bulk.Counted.{Answered, answered}
use meritmolt.MeritRank.Bulk.Covered.{IsAmongst, select_row}

module _ (names : Names) (lake : Lake) (sound : IsSound lake) where
  abbrev answers : Comment → Bool
  answers c = answers_other lake.posts c.author_id (parent_row lake.comments c.parent_id)

  abbrev pub parent_of : Comment → Text
  parent_of c = parent_id_of (parent_row lake.comments c.parent_id)

  answer_of :
      (c : Comment)
      → Among c (replies names lake.posts lake.comments)
      → Answered lake.posts lake.comments c
  answer_of c m =
      let (k, t) = Among-keep_if answers lake.comments c m in
      answered lake.posts lake.comments c (comment_in lake sound c k) t

  parent_of_answer :
      (c : Comment) (a : Answered lake.posts lake.comments c) → parent_of c ≡ a.parent_id
  parent_of_answer c a =
      let e : parent_row lake.comments c.parent_id ≡ some a.row = rw (a.is_parent, a.found) refl in
      rw e a.same_id

  -- Two rows of one group have the same author and parent.
  same_group :
      (x y : Comment)
      → Answered lake.posts lake.comments x
      → Answered lake.posts lake.comments y
      → same_reply names lake.posts lake.comments x y ≡ true
      → (y.author_id ≡ x.author_id) × (y.parent_id ≡ x.parent_id)
  same_group x y a c h =
      let (p, q) =
        and_parts (same_text y.author_id x.author_id) (has_parent y.parent_id (parent_of x)) h in
      let r : same_text c.parent_id (parent_of x) ≡ true = rw c.is_parent at q in
      let e = same_text→≡ c.parent_id (parent_of x) r ∙ parent_of_answer x a in
      (same_text→≡ y.author_id x.author_id p, c.is_parent ∙ ap (λ i. some i) e ∙ sym a.is_parent)

  reply_chain :
      (x y z : Comment)
      → Answered lake.posts lake.comments x
      → Answered lake.posts lake.comments y
      → same_reply names lake.posts lake.comments x y ≡ true
      → same_reply names lake.posts lake.comments y z ≡ true
      → same_reply names lake.posts lake.comments x z ≡ true
  reply_chain x y z a c h k = let (e, f) = same_group x y a c h in rw (← e, ← f) k

  reply_self :
      (x : Comment)
      → Answered lake.posts lake.comments x
      → same_reply names lake.posts lake.comments x x ≡ true
  reply_self x a =
      rw (parent_of_answer x a, a.is_parent, same_text_refl x.author_id)
        (same_text_refl a.parent_id)

  upvoter_answers :
      (s d : Node) (b : Text) (c : Comment)
      → CommentIn lake.posts lake.comments c
      → upvotes_parent names lake.posts lake.comments s d b c c.parent_id ≡ true
      → answers c ≡ true
  upvoter_answers s d b c h t = elim (Option-cases c.parent_id) [
    | inl n ↦ absurd (let e : false ≡ true = rw n at t in cc)
    | inr (i, e) ↦
        let parent : HasParentIn lake.comments c.post_id (some i) = rw e at h.parent in
        let (row, found, same) = parent in
        let u : upvotes_parent names lake.posts lake.comments s d b c (some i) ≡ true = rw e at t in
        let other =
          (and_parts (distinct_from_comment c.author_id (find_comment lake.comments i))
            (is_hit s d b (user_node c.author_id) (comment_node i)
              (post_board names lake.posts c.post_id))
            u).0 in
        let differs : not (same_text c.author_id row.author_id) ≡ true = rw found at other in
        rw (e, found, same, h.on_post) differs
  ]

  -- The author's edge to another's comment.
  pub reply_row :
      (s d : Node) (b : Text) (c : Comment)
      → Among c lake.comments
      → upvotes_parent names lake.posts lake.comments s d b c c.parent_id ≡ true
      → IsAmongst s d b (
          select (reply_edge names lake.posts lake.comments) (
            group_by
              (same_reply names lake.posts lake.comments)
              (replies names lake.posts lake.comments)))
  unfolding reply_edge
  reply_row s d b c m t =
      let posts = lake.posts in
      let comments = lake.comments in
      let h = comment_in lake sound c m in
      let o = upvoter_answers s d b c h t in
      let a = answered posts comments c h o in
      let (x, k, u) =
        group_found (same_reply names posts comments) (replies names posts comments) c
          (λ y n. reply_self y (answer_of y n))
          (λ y z w n l. reply_chain y z w (answer_of y n) (answer_of z l))
          (keep_if-Among answers comments c m o) in
      let (e, f) = same_group x c (answer_of x (group_by-Among _ _ x k)) a u in
      let edge = reply_edge names posts comments x in
      let row_of : parent_row comments c.parent_id ≡ some a.row = rw (a.is_parent, a.found) refl in
      let row_of_x : parent_row comments x.parent_id ≡ some a.row = rw (← f) row_of in
      let board : edge.context ≡ post_board names posts c.post_id =
        rw (row_of_x, a.same_post) refl in
      let (other, hit) =
        and_parts (distinct_from_comment c.author_id (find_comment comments a.parent_id))
          (is_hit s d b (user_node c.author_id) (comment_node a.parent_id)
            (post_board names posts c.post_id))
          (rw a.is_parent at t) in
      select_row s d b (reply_edge names posts comments) _ x k (
        row_hits-is_hit s d b (user_node c.author_id) (comment_node a.parent_id) edge
          (ap (mm_pgmer_prefix 85) (sym e) ∙ prefix_plain 85 c.author_id h.plain.1)
          (ap (λ r. mm_pgmer_prefix 67 (parent_id_of r)) row_of_x
            ∙ ap (mm_pgmer_prefix 67) a.same_id
            ∙ prefix_plain 67 a.parent_id a.plain_id)
        ∙ (rw board hit))
