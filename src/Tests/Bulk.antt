-- ===== src/Tests/Bulk.antt =====
-- meritrank_bulk_init on the tables of a short history (meritmolt/schema/ddl.py).
use meritmolt.Prelude.{◌≡◌, refl, some, List, [], ◌∷◌, All, keep_if}
use meritmolt.Text.{same_text}
use meritmolt.Subscriptions.{Subscribe, mm_pgmer_prefix}
use meritmolt.MeritRank.{
  upserts, upsert, upsert_post, upsert_comment, write_post, write_comment, mm_get_board, post_board,
}
use meritmolt.MeritRank.Nodes.{user_node, comment_node, weight_after}
use meritmolt.MeritRank.History.{upserts-IsInStep, empty-IsInStep}
use meritmolt.MeritRank.Bulk.{
  BulkEdge, meritrank_bulk_init, bulk_edges, full_init, post_to_author, author_to_post,
  comment_to_author, author_to_comment, upvote_edge, reply_edge,
}
use meritmolt.MeritRank.Bulk.Rows.{row_hits}
use meritmolt.MeritRank.Bulk.Agreement.{held_after, weight_among, bulk_init-agrees}
use meritmolt.MeritRank.Bulk.Restart.{restart_keeps}
use meritmolt.MeritRank.{empty_lake}
use meritmolt.Tests.Edges.{ann, bob, names, history, final, steady}

abbrev follows : List Subscribe
follows = record { subject = ann; object = bob; amount = 1; ticker = 1 } ∷ []

abbrev unordered : List BulkEdge → List BulkEdge
unordered rows = rows

-- One follow, two edges for the post and for each of the two comments, and two counts.
nine_edges : (meritrank_bulk_init unordered names final follows 120000).1 ≡ 9
unfolding meritrank_bulk_init bulk_edges post_to_author author_to_post comment_to_author
    author_to_comment upvote_edge reply_edge upserts upsert upsert_post upsert_comment write_post
    write_comment same_text mm_pgmer_prefix mm_get_board post_board
nine_edges = refl

bulk_init-agrees_example :
    let held = held_after (meritrank_bulk_init unordered names final follows 120000).0 [] in
    let rebuilt =
      weight_after
        (user_node ann)
        (comment_node (2 ∷ []))
        (110 ∷ [])
        (full_init names final follows) in
    (weight_among (user_node ann) (comment_node (2 ∷ [])) (110 ∷ []) held ≡ rebuilt)
    × All
        (λ row. rebuilt ≡ some row.weight)
        (keep_if (row_hits (user_node ann) (comment_node (2 ∷ [])) (110 ∷ [])) held)
unfolding same_text
bulk_init-agrees_example =
    bulk_init-agrees unordered names final follows 120000 [] (user_node ann) (comment_node (2 ∷ []))
      (110 ∷ []) (record { no_more = λ rows row m. m; no_less = λ rows row m. m })
      (upserts-IsInStep names history names empty_lake steady (empty-IsInStep names)).sound
      ((refl, refl, refl), tt)

restart_keeps_example :
    weight_among
      (user_node ann)
      (comment_node (2 ∷ []))
      (110 ∷ [])
      (held_after (meritrank_bulk_init unordered names final follows 120000).0 [])
    ≡ weight_after (user_node ann) (comment_node (2 ∷ [])) (110 ∷ []) final.calls
unfolding same_text
restart_keeps_example =
    restart_keeps unordered names history follows 120000 [] (user_node ann) (comment_node (2 ∷ []))
      (110 ∷ []) (record { no_more = λ rows row m. m; no_less = λ rows row m. m }) steady
      ((refl, refl, refl), tt) refl
