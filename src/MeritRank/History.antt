-- ===== src/MeritRank/History.antt =====
-- MeritRank's edges after a history of upserts against a rebuild from the tables (the triggers and
-- meritrank_init of meritmolt/schema/ddl.py).
use meritmolt.Prelude.{
  ◌≡◌, refl, sym, ◌∙◌, Bool, true, false, ◌&&◌, none, some, List, [], ◌∷◌, find_if-update_if,
  find_if_passes,
}
use meritmolt.Text.{Text, same_text, same_text_refl}
use meritmolt.Subscriptions.Edges.{edge_after}
use meritmolt.MeritRank.{
  Post, Names, Lake, has_post_id, find_post, enriched_post, coalesce, mm_get_board, write_post,
  empty_lake, is_known, upsert_post, Write, of_post, upsert, upserts, meritrank_init,
}
use meritmolt.MeritRank.Nodes.{Node, user_node, post_node, comment_node, weight_after}
use meritmolt.MeritRank.Weights.{weight}
use meritmolt.MeritRank.Rebuild.{meritrank_init-weight}
use meritmolt.MeritRank.Steady.{AreSteady, IsInStep}
use meritmolt.MeritRank.Boards.{renamed-IsInStep}
use meritmolt.MeritRank.Triggers.{upsert-IsInStep}

pub upserts-IsInStep :
    (names : Names) (us : List Write) (last : Names) (lake : Lake)
    → AreSteady names us last lake
    → IsInStep names lake
    → IsInStep last (upserts us lake)
unfolding upserts
upserts-IsInStep names [] last lake k h = renamed-IsInStep names last lake k h
upserts-IsInStep names (u ∷ us) last lake (same, k, l) h =
    upserts-IsInStep u.names us last (upsert u.names u.known u.row lake) l
      (upsert-IsInStep u.names lake (renamed-IsInStep names u.names lake same h) u.known u.row k)

empty_weight :
    (names : Names) (s d : Node) (b : Text) → weight_after s d b [] ≡ weight names [] [] s d b
unfolding edge_after weight
empty_weight names (post_node i) (user_node a) b = refl
empty_weight names (user_node a) (post_node i) b = refl
empty_weight names (comment_node i) (user_node a) b = refl
empty_weight names (user_node a) (comment_node i) b = refl
empty_weight names (user_node i) (user_node j) b = refl
empty_weight names (post_node i) (post_node j) b = refl
empty_weight names (post_node i) (comment_node j) b = refl
empty_weight names (comment_node i) (post_node j) b = refl
empty_weight names (comment_node i) (comment_node j) b = refl

pub empty-IsInStep : (names : Names) → IsInStep names empty_lake
empty-IsInStep names = record {
  sound = record { sound_posts = tt; sound_comments = tt };
  agrees = empty_weight names;
}

-- Take a history of upserts from empty tables, refused ones among them, while agents and submolts
-- come in, in which no submolt of a post is renamed, no id starts with U, B or C, no upsert of a known id
-- changes the author, submolt, post or parent of the row, and each comment's parent is on its post. Then
-- the weight that the triggers have left on an edge between two nodes on any board is the one that
-- meritrank_init gives it when it rebuilds an empty MeritRank from the tables.
pub upserts-meritrank_init :
    (names : Names) (us : List Write) (s d : Node) (b : Text)
    → AreSteady names us names empty_lake
    → let lake = upserts us empty_lake in
      weight_after s d b lake.calls ≡ weight_after s d b (meritrank_init names lake [])
upserts-meritrank_init names us s d b steady =
    let lake = upserts us empty_lake in
    let h = upserts-IsInStep names us names empty_lake steady (empty-IsInStep names) in
    h.agrees s d b ∙ sym (meritrank_init-weight names lake s d b h.sound)

-- When an upsert that is not refused moves a known post of the same author to another board,
-- MeritRank keeps the edge from the post to its author on the old board with weight 1, and the tables say
-- that there is none.
pub moved_post_stale :
    (names : Names) (known : Text → Bool) (lake : Lake) (p old : Post)
    → IsInStep names lake
    → find_post lake.posts p.id ≡ some old
    → old.author_id ≡ p.author_id
    → (known p.author_id && is_known names p.submolt_id) ≡ true
    → same_text
        (mm_get_board names (coalesce p.submolt_id old.submolt_id))
        (mm_get_board names old.submolt_id)
      ≡ false
    → let after = upsert names known (of_post p) lake in
      let board = mm_get_board names old.submolt_id in
      (weight_after (post_node p.id) (user_node p.author_id) board after.calls ≡ some 1)
      × (weight names after.posts after.comments (post_node p.id) (user_node p.author_id) board
          ≡ none)
unfolding upsert upsert_post write_post weight
moved_post_stale names known lake p old h found author allowed moved =
    let board = mm_get_board names old.submolt_id in
    rw (allowed, found)
      (
        h.agrees (post_node p.id) (user_node p.author_id) board
            ∙ (rw (found, author, same_text_refl p.author_id, same_text_refl board) refl),
        rw
            (
              find_if-update_if (has_post_id p.id) (has_post_id p.id) (enriched_post p) lake.posts
                  (λ x. refl),
              found,
              find_if_passes (has_post_id p.id) lake.posts old found,
              moved,
              same_text_refl p.author_id,
            )
            refl,
      )
