-- ===== src/Tests/Edges.antt =====
-- Upserts of posts and comments and their edges on concrete ids (meritmolt/schema/ddl.py).
use meritmolt.Prelude.{◌≡◌, refl, Bool, true, false, ◌||◌, none, some, List, [], ◌∷◌, if◌then◌else◌}
use meritmolt.Text.{Text, same_text}
use meritmolt.Subscriptions.{mm_pgmer_prefix}
use meritmolt.Subscriptions.Edges.{edge_after}
use meritmolt.MeritRank.{
  Post, Comment, Lake, Names, Write, Upsert, of_post, of_comment, upserts, upsert, upsert_post,
  upsert_comment, write_post, write_comment, empty_lake, meritrank_init, notify_post_insert,
  notify_comment_insert, put_author, mm_sync_comment_upvote_edge, mm_sync_reply_upvote_edge,
  mm_get_board, post_board,
}
use meritmolt.MeritRank.Nodes.{user_node, post_node, comment_node, weight_after}
use meritmolt.MeritRank.Weights.{weight}
use meritmolt.MeritRank.Steady.{AreSteady, IsInStep}
use meritmolt.MeritRank.History.{
  upserts-meritrank_init, moved_post_stale, upserts-IsInStep, empty-IsInStep,
}

abbrev pub ann : Text
ann = 97 ∷ []

abbrev pub bob : Text
bob = 98 ∷ []

abbrev topic : Text
topic = 116 ∷ []

abbrev other : Text
other = 117 ∷ []

abbrev pub names : Names
names i =
    if same_text i topic
    then some (110 ∷ [])
    else if same_text i other
    then some (111 ∷ [])
    else none

abbrev first_names : Names
first_names i = if same_text i topic then some (110 ∷ []) else none

abbrev pub known : Text → Bool
known i = same_text i ann || same_text i bob

-- A post of Ann's; two comments of Bob's, one of them on a post that is not there, and a reply of Ann's.
abbrev post : Post
post = record { id = 1 ∷ []; author_id = ann; submolt_id = some topic; ticker = 0 }

abbrev by_bob : Comment
by_bob = record { id = 2 ∷ []; post_id = 1 ∷ []; parent_id = none; author_id = bob; ticker = 0 }

abbrev lost : Comment
lost = record by_bob { id = 3 ∷ []; post_id = 9 ∷ [] }

abbrev reply : Comment
reply = record by_bob { id = 4 ∷ []; parent_id = some (2 ∷ []); author_id = ann }

-- Before the submolt `other` comes in, and after it.
abbrev early_write : Upsert → Write
early_write u = record { names = first_names; known = known; row = u }

abbrev write : Upsert → Write
write u = record { names = names; known = known; row = u }

abbrev pub history : List Write
history =
    early_write (of_post post)
    ∷ early_write (of_comment by_bob)
    ∷ write (of_comment lost)
    ∷ write (of_comment reply)
    ∷ write (of_comment by_bob)
    ∷ []

abbrev pub final : Lake
final = upserts history empty_lake

reply_edge : weight_after (user_node ann) (comment_node (2 ∷ [])) (110 ∷ []) final.calls ≡ some 1
unfolding upserts upsert upsert_post upsert_comment write_post write_comment notify_post_insert
    notify_comment_insert put_author mm_sync_comment_upvote_edge mm_sync_reply_upvote_edge
    mm_get_board post_board mm_pgmer_prefix edge_after same_text
reply_edge = refl

unmoved : {A : Type 0} → false ≡ true → A
unmoved h = absurd (cc)

pub steady : AreSteady names history names empty_lake
unfolding upserts upsert upsert_post upsert_comment write_post write_comment mm_pgmer_prefix
    same_text mm_get_board
steady = (
  tt,
  (refl, refl, tt),
  (
    (refl, tt),
    (refl, refl, refl, tt, tt, tt),
    (
      (refl, tt),
      (refl, refl, refl, tt, (λ h. unmoved h, tt), tt),
      (
        (refl, tt),
        (refl, refl, refl, refl, (λ h. unmoved h, tt), (λ h. refl, tt)),
        ((refl, tt), (refl, refl, refl, tt, (λ h. refl, (λ h. unmoved h, tt)), tt), (refl, tt)),
      ),
    ),
  ),
)

upserts-meritrank_init_example :
    weight_after (user_node ann) (comment_node (2 ∷ [])) (110 ∷ []) final.calls
    ≡ weight_after
        (user_node ann)
        (comment_node (2 ∷ []))
        (110 ∷ [])
        (meritrank_init names final [])
upserts-meritrank_init_example =
    upserts-meritrank_init names history (user_node ann) (comment_node (2 ∷ [])) (110 ∷ []) steady

-- A post of an unknown submolt, which its second upsert names.
abbrev early : Post
early = record post { submolt_id = none }

abbrev seen : Lake
seen = upserts (write (of_post early) ∷ []) empty_lake

seen-IsInStep : IsInStep names seen
unfolding upsert upsert_post same_text write_post
seen-IsInStep =
    upserts-IsInStep names (write (of_post early) ∷ []) names empty_lake
      (tt, (refl, refl, tt), (refl, tt)) (empty-IsInStep names)

moved_post_stale_example :
    let after = upsert names known (of_post post) seen in
    (weight_after (post_node (1 ∷ [])) (user_node ann) [] after.calls ≡ some 1)
    × (weight names after.posts after.comments (post_node (1 ∷ [])) (user_node ann) [] ≡ none)
unfolding upserts upsert upsert_post write_post mm_get_board same_text
moved_post_stale_example =
    moved_post_stale names known seen post (record early { ticker = 1 }) seen-IsInStep refl refl
      refl refl
