-- ===== src/Tests/Crawl.antt =====
-- Upserts and the order of comments on concrete rows (textlake/upsert.py,
-- textlake/handlers/comments.py).
use meritmolt.Prelude.{
  ◌+◌, ◌≡◌, refl, String, Bool, true, false, Option, none, some, List, [], ◌∷◌, length, All,
  if◌then◌else◌, str_eq,
}
use meritmolt.Json.{Json, text}
use meritmolt.Entities.{Cells, Row, Table, Upsert, mb_agent, upsert_all, is_member}
use meritmolt.Entities.Enrichment.{HasValue, upsert_all-HasValue}
use meritmolt.Comments.{CommentRow, ids, topological_sort, drain, roots, start_degrees, release}
use meritmolt.Comments.Order.{
  ParentsFirst, topological_sort-ParentsFirst, topological_sort_complete,
}
use meritmolt.Comments.Fuel.{drain_ends}

-- A payload with a name, and a stub without one.
abbrev named : Cells
named c =
    if str_eq c "name"
    then some (text "ann")
    else if str_eq c "raw_json"
    then some (text "raw")
    else none

abbrev ann_row : Row
ann_row = record { id = "synthetic"; cells = named; first_seen_at = 1; last_seen_at = 1 }

abbrev ann_table : Table
ann_table = ann_row ∷ []

abbrev stub : Upsert
stub = record { is_authoritative = false; now = 5; id = "synthetic"; cells = named }

abbrev equal_names : Json → Json → Bool
equal_names a b = true

upsert_all-HasValue_example :
    HasValue "synthetic" "name" (upsert_all equal_names mb_agent (stub ∷ []) ann_table)
upsert_all-HasValue_example =
    upsert_all-HasValue equal_names mb_agent (stub ∷ []) ann_table "synthetic" "name" (tt, tt)
      (ann_row, refl, tt)

abbrev comment : String → Option String → CommentRow
comment i parent = record { id = i; parent_id = parent; rest = λ c. none }

-- A child before its parent, and a cycle of two.
abbrev thread : List CommentRow
thread =
    comment "b" (some "a") ∷ comment "a" none ∷ comment "c" (some "d") ∷ comment "d" (some "c") ∷ []

abbrev batch : List String
batch = "b" ∷ "a" ∷ "c" ∷ "d" ∷ []

sorted_thread :
    topological_sort thread batch
    ≡ comment "a" none ∷ comment "b" (some "a") ∷ comment "c" none ∷ comment "d" none ∷ []
unfolding topological_sort drain start_degrees release
sorted_thread = refl

topological_sort-ParentsFirst_example : ParentsFirst batch [] (topological_sort thread batch)
topological_sort-ParentsFirst_example = topological_sort-ParentsFirst thread batch

topological_sort_complete_example :
    All (λ (r : CommentRow). is_member r.id (ids (topological_sort thread batch)) ≡ true) thread
topological_sort_complete_example = topological_sort_complete thread batch

drain_ends_example :
    drain batch thread
      (length thread + 3)
      (roots thread (start_degrees batch thread))
      (start_degrees batch thread)
    ≡ drain batch thread
        (length thread)
        (roots thread (start_degrees batch thread))
        (start_degrees batch thread)
drain_ends_example = drain_ends thread batch 3
