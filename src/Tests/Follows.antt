-- ===== src/Tests/Follows.antt =====
-- Follow and unfollow requests on concrete ids (meritmolt/events/router.py).
use meritmolt.Prelude.{◌≡◌, refl, Bool, ◌||◌, none, some, List, [], ◌∷◌}
use meritmolt.Text.{Text, same_text}
use meritmolt.Subscriptions.{
  Request, Graph, follow, unfollow, subscribe_all, empty_graph, agent_subscription, put_row,
  delete_row, notify_put, notify_delete, mm_pgmer_prefix,
}
use meritmolt.Subscriptions.Edges.{edge_after, user, amount_of}
use meritmolt.Subscriptions.Agreement.{Agrees, subscribe_all-Agrees, subscribe_all-latest, latest}

abbrev ann : Text
ann = 97 ∷ []

abbrev bob : Text
bob = 98 ∷ []

abbrev eve : Text
eve = 101 ∷ []

abbrev known : Text → Bool
known i = same_text i ann || same_text i bob

-- A follow twice, one of an agent that is not known, one the other way, and an unfollow.
abbrev history : List Request
history =
    (follow, ann, bob)
    ∷ (follow, ann, bob)
    ∷ (follow, ann, eve)
    ∷ (follow, bob, ann)
    ∷ (unfollow, bob, ann)
    ∷ []

abbrev final : Graph
final = subscribe_all known history empty_graph

followed : amount_of ann bob final.rows ≡ some 1
unfolding subscribe_all agent_subscription put_row delete_row same_text
followed = refl

-- An insert that conflicts counts twice.
ticked : final.vsids ann ≡ 3
unfolding subscribe_all agent_subscription put_row delete_row same_text
ticked = refl

unknown_refused : amount_of ann eve final.rows ≡ none
unfolding subscribe_all agent_subscription put_row delete_row same_text
unknown_refused = refl

edge_kept : edge_after (user ann) (user bob) [] final.calls ≡ some 1
unfolding subscribe_all agent_subscription put_row delete_row same_text edge_after notify_put
    notify_delete mm_pgmer_prefix
edge_kept = refl

edge_removed : edge_after (user bob) (user ann) [] final.calls ≡ none
unfolding subscribe_all agent_subscription put_row delete_row same_text edge_after notify_put
    notify_delete mm_pgmer_prefix
edge_removed = refl

empty-Agrees : Agrees empty_graph
unfolding edge_after
empty-Agrees s o = refl

subscribe_all-Agrees_example : Agrees (subscribe_all known history empty_graph)
subscribe_all-Agrees_example =
    subscribe_all-Agrees known history empty_graph
      ((refl, refl), ((refl, refl), ((refl, refl), ((refl, refl), ((refl, refl), tt)))))
      empty-Agrees

subscribe_all-latest_example :
    amount_of ann bob (subscribe_all known history empty_graph).rows
    ≡ latest known ann bob history (amount_of ann bob empty_graph.rows)
subscribe_all-latest_example = subscribe_all-latest known history empty_graph ann bob
