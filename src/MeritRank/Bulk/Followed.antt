-- ===== src/MeritRank/Bulk/Followed.antt =====
-- The edges of follows under meritrank_init and meritrank_bulk_init (meritmolt/schema/ddl.py).
use meritmolt.Prelude.{
  ◌≡◌, refl, sym, ◌∙◌, inl, inr, Bool, true, false, ◌&&◌, Option, none, some, List, [], ◌∷◌, Among,
  All, All-Among, find_if, any_of, any_of-Among, and_parts, Bool-cases, if_or, if◌then◌else◌,
}
use mathlib.Core.Path.{ap₂}
use meritmolt.Text.{Text, same_text, same_text_refl, same_text→≡}
use meritmolt.Subscriptions.{Subscribe, Call, has_pair, notify_put}
use meritmolt.Subscriptions.Edges.{IsPlain, edge_after, edge_after-notify_put}
use meritmolt.MeritRank.{
  Comment, Posts, Comments, Names, Lake, find_post, find_comment, distinct_from_post,
  distinct_from_comment,
}
use meritmolt.MeritRank.Nodes.{Node, user_node, prefix_plain, weight_after}
use meritmolt.MeritRank.Weights.{touches_post, hit_equal}
use meritmolt.MeritRank.Touched.{touches_comment, upvotes_parent}
use meritmolt.MeritRank.Rebuild.{is_touched}
use meritmolt.MeritRank.Bulk.{subscribe_edge, init_subscribes}
use meritmolt.MeritRank.Bulk.Rows.{row_hits, row_hits-is_hit}

-- A row that the search for its pair finds (the key of subscribe), with plain ids.
abbrev pub SubscribeIn : List Subscribe → Subscribe → Type 0
SubscribeIn subs r =
    (find_if (has_pair r.subject r.object) subs ≡ some r) × IsPlain r.subject × IsPlain r.object

never_hit : (p : Bool) → (p && false) ≡ false
never_hit true = refl
never_hit false = refl

-- No calls of meritrank_init about posts and comments are about an edge between two users.
module _ (names : Names) (a c b : Text) where
  post_untouched :
      (posts : Posts) → any_of (touches_post (user_node a) (user_node c) b names) posts ≡ false
  unfolding touches_post
  post_untouched [] = refl
  post_untouched (p ∷ rest) = rw (never_hit (same_text p.author_id a)) (post_untouched rest)

  parent_untouched :
      (posts : Posts) (comments : Comments) (x : Comment) (parent : Option Text)
      → upvotes_parent names posts comments (user_node a) (user_node c) b x parent ≡ false
  parent_untouched posts comments x none = refl
  parent_untouched posts comments x (some p) =
      rw (never_hit (same_text x.author_id a))
        (never_hit (distinct_from_comment x.author_id (find_comment comments p)))

  comment_untouched :
      (posts : Posts) (comments : Comments) (x : Comment)
      → touches_comment names posts comments (user_node a) (user_node c) b x ≡ false
  unfolding touches_comment
  comment_untouched posts comments x =
      rw
        (
          parent_untouched posts comments x x.parent_id,
          never_hit (same_text x.author_id a),
          never_hit (distinct_from_post x.author_id (find_post posts x.post_id)),
        )
        refl

  comments_untouched :
      (posts : Posts) (comments rest : Comments)
      → any_of (touches_comment names posts comments (user_node a) (user_node c) b) rest ≡ false
  comments_untouched posts comments [] = refl
  comments_untouched posts comments (x ∷ rest) =
      rw (comment_untouched posts comments x) (comments_untouched posts comments rest)

  pub users_untouched : (lake : Lake) → is_touched names lake (user_node a) (user_node c) b ≡ false
  users_untouched lake =
      rw (post_untouched lake.posts, comments_untouched lake.posts lake.comments lake.comments) refl

module _ (subs : List Subscribe) (r : Subscribe) (found : SubscribeIn subs r) where
  same_row : (x : Subscribe) → SubscribeIn subs x → has_pair r.subject r.object x ≡ true → x ≡ r
  same_row x h t =
      let (p, q) = and_parts (same_text x.subject r.subject) (same_text x.object r.object) t in
      let e : find_if (has_pair r.subject r.object) subs ≡ some x =
        sym (
          ap₂ (λ s o. find_if (has_pair s o) subs) (same_text→≡ x.subject r.subject p)
            (same_text→≡ x.object r.object q))
        ∙ h.0 in
      let f : some x ≡ some r = sym e ∙ found.0 in cc

  pub init_subscribes-weight :
      (rest : List Subscribe) (calls : List Call)
      → All (SubscribeIn subs) rest
      → weight_after (user_node r.subject) (user_node r.object) [] (init_subscribes rest calls) ≡ (
          if any_of (has_pair r.subject r.object) rest
          then some r.amount
          else weight_after (user_node r.subject) (user_node r.object) [] calls)
  unfolding init_subscribes
  init_subscribes-weight [] calls h = refl
  init_subscribes-weight (x ∷ rest) calls (k, h) =
      let pair = has_pair r.subject r.object in
      let before = weight_after (user_node r.subject) (user_node r.object) [] calls in
      init_subscribes-weight rest (notify_put x calls) h
      ∙ (rw (edge_after-notify_put r.subject r.object x calls k.1 k.2) (elim (Bool-cases (pair x)) [
        | inl t ↦ rw (t, same_row x k t) (if_or true (any_of pair rest) (some r.amount) before)
        | inr f ↦ rw f refl
      ]))

-- The row's edge has the row's weight after the loop over subscribe.
pub subscribe_edge-weight :
    (subs : List Subscribe) (s d : Node) (b : Text) (r : Subscribe)
    → Among r subs
    → All (SubscribeIn subs) subs
    → row_hits s d b (subscribe_edge r) ≡ true
    → (a : Text) × (c : Text) × (s ≡ user_node a)
      × (d ≡ user_node c)
      × (weight_after s d b (init_subscribes subs []) ≡ some r.amount)
unfolding edge_after
subscribe_edge-weight subs s d b r m h t =
    let found = All-Among (SubscribeIn subs) subs r h m in
    let e =
      row_hits-is_hit s d b (user_node r.subject) (user_node r.object) (subscribe_edge r)
        (prefix_plain 85 r.subject found.1) (prefix_plain 85 r.object found.2) in
    let (x, y, z) = hit_equal s d b (user_node r.subject) (user_node r.object) [] (sym e ∙ t) in
    let hit : any_of (has_pair r.subject r.object) subs ≡ true =
      any_of-Among (has_pair r.subject r.object) subs r m
        (rw (same_text_refl r.subject) (same_text_refl r.object)) in
    (
      r.subject,
      r.object,
      x,
      y,
      rw (x, y, z) (init_subscribes-weight subs r found subs [] h ∙ (rw hit refl)),
    )
