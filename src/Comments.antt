-- ===== src/Comments.antt =====
-- The order in which the comments of a post are written (_topological_sort_comment_rows of
-- textlake/handlers/comments.py). The rows have different ids, which the caller sees to, so that
-- the source's rows_by_id[cid] is the row itself.
pub mod Order
pub mod Fuel
use meritmolt.Prelude.{
  ℕ, zero, suc, ◌-◌, String, Bool, true, false, not, ◌&&◌, Option, none, some, List, [], ◌∷◌, ◌++◌,
  ◌==◌, length, find_if, keep_if, is_none, one_if, str_eq, if◌then◌else◌,
}
use meritmolt.Entities.{Cells, is_member}

pub record CommentRow : Type 0 where
  pub id : String
  pub parent_id : Option String
  pub rest : Cells

abbrev pub ids : List CommentRow → List String
ids [] = []
ids (r ∷ rows) = r.id ∷ ids rows

-- `pid is not None and pid in batch_ids`.
abbrev pub parent_in : List String → Option String → Bool
parent_in batch none = false
parent_in batch (some p) = is_member p batch

abbrev pub Degrees : Type 0
Degrees = String → ℕ

-- in_degree after the loop over the rows.
unfoldable pub start_degrees : List String → List CommentRow → Degrees
start_degrees batch rows i = one_if (
    not (is_none (find_if (λ (r : CommentRow). str_eq r.id i && parent_in batch r.parent_id) rows)))

abbrev pub same_parent : Option String → String → Bool
same_parent none i = false
same_parent (some p) i = str_eq p i

-- children_by_parent[i].
abbrev pub children : List String → List CommentRow → String → List CommentRow
children batch rows i =
    keep_if (λ (r : CommentRow). parent_in batch r.parent_id && same_parent r.parent_id i) rows

-- `in_degree[child_id] -= 1`.
abbrev pub lower : String → Degrees → Degrees
lower i degrees j = if str_eq j i then degrees j - 1 else degrees j

-- The loop over the children: the degrees after it, and the children that became ready. A degree is 0
-- after the decrement if it was 1 before.
unfoldable pub release : List CommentRow → Degrees → Degrees × List CommentRow
release [] degrees = (degrees, [])
release (c ∷ cs) degrees =
    let (after, newly) = release cs (lower c.id degrees) in
    (after, if degrees c.id == 1 then c ∷ newly else newly)

-- The loop over the queue; each turn takes one unit of fuel.
unfoldable pub drain :
    List String → List CommentRow → ℕ → List CommentRow → Degrees → List CommentRow
drain batch rows fuel [] degrees = []
drain batch rows zero (r ∷ ready) degrees = []
drain batch rows (suc fuel) (r ∷ ready) degrees =
    let (after, newly) = release (children batch rows r.id) degrees in
    r ∷ drain batch rows fuel (ready ++ newly) after

abbrev pub roots : List CommentRow → Degrees → List CommentRow
roots rows degrees = keep_if (λ (r : CommentRow). degrees r.id == 0) rows

abbrev pub orphaned : List CommentRow → List CommentRow
orphaned [] = []
orphaned (r ∷ rows) = record r { parent_id = none } ∷ orphaned rows

-- The rows of cycles: those that are not in the output, without their parents.
abbrev pub remaining : List CommentRow → List CommentRow → List CommentRow
remaining sorted rows =
    orphaned (keep_if (λ (r : CommentRow). not (is_member r.id (ids sorted))) rows)

unfoldable pub topological_sort : List CommentRow → List String → List CommentRow
topological_sort rows batch =
    let degrees = start_degrees batch rows in
    let sorted = drain batch rows (length rows) (roots rows degrees) degrees in
    sorted ++ remaining sorted rows
