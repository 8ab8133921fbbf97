-- ===== src/Handlers/PostComments.antt =====
-- The handler fetch_post_comments (textlake/handlers/comments.py). `fetched` is what client.get comes to.
use meritmolt.Prelude.{
  ℕ, ◌+◌, String, Bool, false, not, ◌&&◌, ◌||◌, Option, none, some, List, [], ◌∷◌, ◌++◌, length,
  ltb, str_eq, if◌then◌else◌,
}
use mathlib.Core.Option
use meritmolt.Errors.{Result, ok, err, unhandled, or_raise, ◌>>=◌}
use meritmolt.Json.{Json, null, boolean, number, text, array, object, Fields, truthy, ◌or◌, get}
use meritmolt.Auth.Moltbook.{to_str}
use meritmolt.Entities.{Cells, is_member}
use meritmolt.Comments.{CommentRow, ids, topological_sort}
use meritmolt.Handlers.Stubs.{
  Python, Stub, agent_stub, stub_of, parse_ts, cell, time_cell, columns, name_cell, id_cell,
  is_empty,
}
use meritmolt.Handlers.Store.{
  Store, Env, Progress, has_row, put_agent, put_comment, put_embedded, add_snapshot, items_of,
}

module _ (py : Python) where
  -- `str(value) if value is not None else None`.
  abbrev pub str_or_none : Json → Option String
  str_or_none null = none
  str_or_none (boolean b) = some (to_str py.render (boolean b))
  str_or_none (number n) = some (to_str py.render (number n))
  str_or_none (text s) = some (to_str py.render (text s))
  str_or_none (array xs) = some (to_str py.render (array xs))
  str_or_none (object fs) = some (to_str py.render (object fs))

  abbrev comment_columns : Fields → String → Option Stub → Option ℕ → Cells
  comment_columns body post_id agent created = columns (
      ("post_id", some (text post_id))
      ∷ ("author_name", name_cell py agent)
      ∷ ("author_id", id_cell py agent)
      ∷ ("content", some (get "content" body or (get "body" body or text "")))
      ∷ ("created_at_src", time_cell created)
      ∷ ("upvotes", cell (get "upvotes" body))
      ∷ ("downvotes", cell (get "downvotes" body))
      ∷ ("raw_json", some (object body))
      ∷ [])

  abbrev row_of : Fields → String → Option Stub → Option ℕ → CommentRow
  row_of body post_id agent created = record {
    id = to_str py.render (get "id" body);
    parent_id = str_or_none (get "parent_id" body);
    rest = comment_columns body post_id agent created;
  }

  abbrev built_row : Fields → String → Result CommentRow
  built_row body post_id = do
    agent ← or_raise (stub_of py (agent_stub py) (get "author" body or object body)) unhandled
    created ← or_raise (parse_ts py (get "created_at" body)) unhandled
    ok (row_of body post_id agent created)

  -- _comment_row, after the loop's `if not row or row["id"] in seen_ids: continue`.
  unfoldable pub add_row : Fields → String → List CommentRow → Result (List CommentRow)
  add_row body post_id rows =
      if truthy (get "id" body)
      then (do
        row ← built_row body post_id
        ok (if is_member row.id (ids rows) then rows else rows ++ row ∷ []))
      else ok rows

-- The row's columns with its parent.
abbrev pub with_parent : CommentRow → Cells
with_parent row c = if str_eq c "parent_id" then Option.map text row.parent_id else row.rest c

-- `pid and pid not in batch_ids and pid not in existing_parent_ids`: no parent.
abbrev pub settled_parent : (String → Bool) → List String → Option String → Option String
settled_parent exists batch none = none
settled_parent exists batch (some p) =
    if not (is_empty p) && (not (is_member p batch) && not (exists p)) then none else some p

-- The loop that nulls the parents that are nowhere.
unfoldable pub settle : (String → Bool) → List String → List CommentRow → List CommentRow
settle exists batch [] = []
settle exists batch (row ∷ rows) =
    record row { parent_id = settled_parent exists batch row.parent_id } ∷ settle exists batch rows

-- `new_fetched < expected`; what is no number raises TypeError.
abbrev pub fewer_than : ℕ → Json → Result Bool
fewer_than n (number m) = ok (ltb n m)
fewer_than n (boolean b) = ok (ltb n (if b then 1 else 0))
fewer_than n null = err unhandled
fewer_than n (text s) = err unhandled
fewer_than n (array xs) = err unhandled
fewer_than n (object fs) = err unhandled

abbrev pub expected_of : Json → ℕ → Json
expected_of (object fs) count = get "total" fs or (get "comment_count" fs or number count)
expected_of null count = null
expected_of (boolean b) count = null
expected_of (number n) count = null
expected_of (text s) count = null
expected_of (array xs) count = null

module _ (env : Env) where
  -- The loop over the items: the authors' upserts, and the rows.
  unfoldable pub collect :
      String → List Json → Store → List CommentRow → Result (Store × List CommentRow)
  collect post_id [] s rows = ok (s, rows)
  collect post_id (null ∷ items) s rows = collect post_id items s rows
  collect post_id (boolean b ∷ items) s rows = collect post_id items s rows
  collect post_id (number n ∷ items) s rows = collect post_id items s rows
  collect post_id (text t ∷ items) s rows = collect post_id items s rows
  collect post_id (array xs ∷ items) s rows = collect post_id items s rows
  collect post_id (object fs ∷ items) s rows = do
    s' ← put_embedded env (agent_stub env.py) (put_agent env false) (get "author" fs) s
    rows' ← add_row env.py fs post_id rows
    collect post_id items s' rows'

  unfoldable pub put_comments : List CommentRow → Store → Result Store
  put_comments [] s = ok s
  put_comments (row ∷ rows) s = do
    s' ← put_comment env false row.id (with_parent row) s
    put_comments rows s'

  abbrev pub snap_comment : Fields → Store → Result Store
  snap_comment fs s =
      if truthy (get "id" fs)
      then (do
        stats ←
            add_snapshot env.now (to_str env.py.render (get "id" fs)) (object fs) s.comment_stats
        ok (record s { comment_stats = stats }))
      else ok s

  unfoldable pub snap_comments : List Json → Store → Result Store
  snap_comments [] s = ok s
  snap_comments (null ∷ items) s = snap_comments items s
  snap_comments (boolean b ∷ items) s = snap_comments items s
  snap_comments (number n ∷ items) s = snap_comments items s
  snap_comments (text t ∷ items) s = snap_comments items s
  snap_comments (array xs ∷ items) s = snap_comments items s
  snap_comments (object fs ∷ items) s = do s' ← snap_comment fs s; snap_comments items s'

  abbrev pub set_progress : String → Progress → Store → Store
  set_progress post_id progress s = record s {
    progress = λ i. if str_eq i post_id then progress else s.progress i;
  }

  -- The UPDATE of the post, where it is there.
  unfoldable pub note_fetched : String → ℕ → Json → Store → Result Store
  note_fetched post_id fetched expected s =
      let old = s.progress post_id in
      if has_row s.posts post_id
      then (do
        truncated ← fewer_than (old.comments_fetched + fetched) expected
        ok (
            set_progress post_id
              (record {
                comments_fetched = old.comments_fetched + fetched;
                comments_truncated = old.comments_truncated || truncated;
                last_comments_fetch_at = some env.now;
              })
              s))
      else ok s

  -- The rows in the order of their upserts.
  abbrev pub ordered : Store → List CommentRow → List CommentRow
  ordered s rows = topological_sort (settle (has_row s.comments) (ids rows) rows) (ids rows)

  unfoldable pub store_comments : String → Json → List Json → Store → Result Store
  store_comments post_id body items s = do
    (s₁, rows) ← collect post_id items s []
    s₂ ← put_comments (ordered s₁ rows) s₁
    s₃ ← snap_comments items s₂
    note_fetched post_id (length (ordered s₁ rows)) (expected_of body (length items)) s₃

  abbrev pub body_stored : String → Json → Store → Result Store
  body_stored post_id body s = do
    items ← items_of "comments" body
    store_comments post_id body items s

  -- handle_fetch_post_comments. The id in the task's parameters is a text, or there is none.
  unfoldable pub fetch_post_comments : Option String → Result Json → Store → Result Store
  fetch_post_comments none fetched s = ok s
  fetch_post_comments (some post_id) fetched s =
      if is_empty post_id then ok s else (do body ← fetched; body_stored post_id body s)
