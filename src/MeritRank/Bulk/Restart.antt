-- ===== src/MeritRank/Bulk/Restart.antt =====
-- A restart: meritrank_bulk_init after a history of the triggers' calls (meritmolt/schema/ddl.py).
use meritmolt.Prelude.{
  ◌≡◌, sym, ◌∙◌, inl, inr, ℕ, Bool, true, false, none, List, [], All, Bool-cases, Option-cases,
}
use meritmolt.Text.{Text}
use meritmolt.Subscriptions.{Subscribe}
use meritmolt.Subscriptions.Edges.{edge_after}
use meritmolt.MeritRank.{Names, Write, upserts, empty_lake}
use meritmolt.MeritRank.Nodes.{Node, user_node, post_node, comment_node, weight_after}
use meritmolt.MeritRank.Rebuild.{is_touched, meritrank_init_over, untouched-weight}
use meritmolt.MeritRank.Steady.{AreSteady}
use meritmolt.MeritRank.History.{upserts-IsInStep, empty-IsInStep}
use meritmolt.MeritRank.Bulk.{BulkEdge, subscribe_edge, init_subscribes, meritrank_bulk_init}
use meritmolt.MeritRank.Bulk.Groups.{Among-select}
use meritmolt.MeritRank.Bulk.Followed.{SubscribeIn, subscribe_edge-weight}
use meritmolt.MeritRank.Bulk.Covered.{subscribe_row}
use meritmolt.MeritRank.Bulk.Agreement.{KeepsRows, held_after, weight_among, bulk_init-agrees}

-- Both ends are users: the edges of follows.
abbrev pub between_users : Node → Node → Bool
between_users (user_node a) (user_node c) = true
between_users (user_node a) (post_node i) = false
between_users (user_node a) (comment_node i) = false
between_users (post_node i) d = false
between_users (comment_node i) d = false

module _ (subs : List Subscribe) (s d : Node) (b : Text) where
  -- Follows make no other edges.
  follows_elsewhere :
      All (SubscribeIn subs) subs
      → between_users s d ≡ false
      → weight_after s d b (init_subscribes subs []) ≡ none
  unfolding edge_after
  follows_elsewhere h n = elim (Option-cases (weight_after s d b (init_subscribes subs []))) [
    | inl e ↦ e
    | inr (w, e) ↦ elim (subscribe_row s d b subs [] w e) [
      | inr f ↦ absurd (cc)
      | inl (row, m, t) ↦
          let (r, k, q) = Among-select subscribe_edge subs row m in
          let (a, c, x, y, z) = subscribe_edge-weight subs s d b r k h (rw q at t) in
          let u : true ≡ false = rw (x, y) at n in absurd (let v : true ≡ false = u in cc)
    ]
  ]

-- Take a history of upserts from empty tables, refused ones among them, while agents and submolts
-- come in, in which no submolt of a post is renamed, no id starts with U, B or C, no upsert of a known id
-- changes the author, submolt, post or parent of the row, and each comment's parent is on its post; and any
-- follows, one of each pair, between such ids. Then meritrank_bulk_init, whatever MeritRank holds
-- before, leaves each edge between two nodes that are not both users, on each board, with the weight
-- that the triggers left. The magnitudes are not compared.
pub restart_keeps :
    (order : List BulkEdge → List BulkEdge) (names : Names) (us : List Write)
    (subs : List Subscribe) (timeout_msec : ℕ) (before : List BulkEdge) (s d : Node) (b : Text)
    → KeepsRows order
    → AreSteady names us names empty_lake
    → All (SubscribeIn subs) subs
    → between_users s d ≡ false
    → let lake = upserts us empty_lake in
      weight_among s d b
        (held_after (meritrank_bulk_init order names lake subs timeout_msec).0 before)
      ≡ weight_after s d b lake.calls
restart_keeps order names us subs timeout_msec before s d b keeps steady follows apart =
    let lake = upserts us empty_lake in
    let in_step = upserts-IsInStep names us names empty_lake steady (empty-IsInStep names) in
    (bulk_init-agrees order names lake subs timeout_msec before s d b keeps in_step.sound follows).0
    ∙ meritrank_init_over names lake s d b (init_subscribes subs []) in_step.sound
    ∙ elim (Bool-cases (is_touched names lake s d b)) [
      | inl t ↦ rw t (sym (in_step.agrees s d b))
      | inr f ↦ rw f (
          follows_elsewhere subs s d b follows apart
          ∙ sym (untouched-weight names lake s d b in_step.sound f)
          ∙ sym (in_step.agrees s d b))
    ]
