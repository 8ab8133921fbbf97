-- ===== src/MeritRank/Rebuild.antt =====
-- meritrank_init (meritmolt/schema/ddl.py) against the weights that the tables say.
use meritmolt.Prelude.{
  ◌≡◌, refl, ◌∙◌, Bool, ◌||◌, or_false, false, none, List, [], ◌∷◌, All, any_of, any_of-false,
  if_or, if◌then◌else◌, Bool-cases, inl, inr,
}
use meritmolt.Text.{Text}
use meritmolt.Subscriptions.{Call}
use meritmolt.Subscriptions.Edges.{edge_after}
use meritmolt.MeritRank.{
  Posts, Comments, Names, Lake, init_posts, init_comments, meritrank_init, notify_post_insert,
  notify_comment_insert,
}
use meritmolt.MeritRank.Nodes.{Node, weight_after}
use meritmolt.MeritRank.Weights.{weight, touches_post, notify_post-weight}
use meritmolt.MeritRank.Touched.{touches_comment, notify_comment-weight}
use meritmolt.MeritRank.Untouched.{untouched_none}
use meritmolt.MeritRank.Sound.{PostIn, CommentIn, IsSound}

module _ (names : Names) (posts : Posts) (comments : Comments) (s d : Node) (b : Text) where
  init_comments-weight :
      (rest : Comments) (calls : List Call)
      → All (CommentIn posts comments) rest
      → weight_after s d b (init_comments names posts comments rest calls) ≡ (
          if any_of (touches_comment names posts comments s d b) rest
          then weight names posts comments s d b
          else weight_after s d b calls)
  unfolding init_comments
  init_comments-weight [] calls h = refl
  init_comments-weight (c ∷ rest) calls (k, h) =
      let touches = touches_comment names posts comments s d b in
      let w = weight names posts comments s d b in
      let after = notify_comment_insert names posts comments c calls in
      init_comments-weight rest after h
      ∙ (rw
          (notify_comment-weight names posts comments s d b c k.post calls k.found k.on_post
            k.parent k.plain)
          (if_or (touches c) (any_of touches rest) w (weight_after s d b calls)))

  init_posts-weight :
      (rest : Posts) (calls : List Call)
      → All (PostIn posts) rest
      → weight_after s d b (init_posts names rest calls) ≡ (
          if any_of (touches_post s d b names) rest
          then weight names posts comments s d b
          else weight_after s d b calls)
  unfolding init_posts
  init_posts-weight [] calls h = refl
  init_posts-weight (p ∷ rest) calls (k, h) =
      let touches = touches_post s d b names in
      let w = weight names posts comments s d b in
      let after = notify_post_insert names p calls in
      init_posts-weight rest after h
      ∙ (rw (notify_post-weight s d b names posts comments p calls k.0 k.1 k.2)
          (if_or (touches p) (any_of touches rest) w (weight_after s d b calls)))

module _ (names : Names) (lake : Lake) (s d : Node) (b : Text) where
  -- Calls of meritrank_init are about the edge.
  abbrev pub is_touched : Bool
  is_touched =
      any_of (touches_post s d b names) lake.posts
      || any_of (touches_comment names lake.posts lake.comments s d b) lake.comments

  -- meritrank_init on top of other calls.
  pub meritrank_init_over :
      (calls : List Call)
      → IsSound lake
      → weight_after s d b (meritrank_init names lake calls) ≡ (
          if is_touched
          then weight names lake.posts lake.comments s d b
          else weight_after s d b calls)
  unfolding meritrank_init
  meritrank_init_over calls sound =
      let posts = lake.posts in
      let comments = lake.comments in
      let after = init_posts names posts calls in
      init_comments-weight names posts comments s d b comments after sound.sound_comments
      ∙ (rw (init_posts-weight names posts comments s d b posts calls sound.sound_posts) (
          if_or (any_of (touches_post s d b names) posts)
            (any_of (touches_comment names posts comments s d b) comments)
            (weight names posts comments s d b) (weight_after s d b calls)))

  pub untouched-weight :
      IsSound lake → is_touched ≡ false → weight names lake.posts lake.comments s d b ≡ none
  untouched-weight sound h =
      let posts = any_of (touches_post s d b names) lake.posts in
      let comments = any_of (touches_comment names lake.posts lake.comments s d b) lake.comments in
      let (p, c) = or_false posts comments h in
      untouched_none names lake.posts lake.comments b s d sound.sound_comments (record {
        by_posts = any_of-false (touches_post s d b names) lake.posts p;
        by_comments =
            any_of-false (touches_comment names lake.posts lake.comments s d b) lake.comments c;
      })

-- meritrank_init, run on an empty MeritRank over tables whose keys hold, gives every edge between
-- two nodes on every board the weight that the tables say: each row and its author are joined both
-- ways with weight 1, each user to the posts and comments of others by the number of comments and replies
-- there, all on the board of the post, and there are no other edges between nodes.
pub meritrank_init-weight :
    (names : Names) (lake : Lake) (s d : Node) (b : Text)
    → IsSound lake
    → weight_after s d b (meritrank_init names lake [])
      ≡ weight names lake.posts lake.comments s d b
unfolding edge_after
meritrank_init-weight names lake s d b sound =
    meritrank_init_over names lake s d b [] sound
    ∙ elim (Bool-cases (is_touched names lake s d b)) [
      | inl t ↦ rw t refl
      | inr f ↦ rw (f, untouched-weight names lake s d b sound f) refl
    ]
