-- ===== src/Handlers/Stubs.antt =====
-- Rows out of the bodies that MoltBook sends (textlake/utils.py, textlake/ids.py, and the row builders of
-- textlake/handlers). A datetime is a number of microseconds; `none` is an exception.
use Prim.Native.Char.{code}
use Prim.Native.String.{◌++◌ as append}
use mathlib.Core.Option
use meritmolt.Prelude.{
  ℕ, String, Bool, false, ◌||◌, ◌==◌, Option, none, some, List, [], ◌∷◌, str_eq, if◌then◌else◌,
}
use meritmolt.Text.{Text, codes, is_space, is_blank}
use meritmolt.Json.{
  Json, null, boolean, number, text, array, object, nil, cons, Fields, truthy, ◌or◌, get, ◌>>=◌,
}
use meritmolt.Auth.Moltbook.{to_str}
use meritmolt.Entities.{Cells}

-- `str(x)` of what is not a text, str.lower, sha256 in hexadecimal, datetime.fromtimestamp (`none` where it
-- raises) and datetime.fromisoformat with astimezone (`none` for ValueError).
pub record Python : Type 0 where
  pub render : Json → String
  pub lower : String → String
  pub sha256 : String → String
  pub from_timestamp : ℕ → Option ℕ
  pub from_iso : Text → Option ℕ

-- `"T" in raw or "Z" in raw or "+" in raw`.
unfoldable pub has_iso_mark : Text → Bool
has_iso_mark [] = false
has_iso_mark (c ∷ cs) = (c == 84) || ((c == 90) || ((c == 43) || has_iso_mark cs))

-- `raw.replace("Z", "+00:00")`.
unfoldable pub replace_z : Text → Text
replace_z [] = []
replace_z (c ∷ cs) =
    let rest = replace_z cs in if c == 90 then 43 ∷ 48 ∷ 48 ∷ 58 ∷ 48 ∷ 48 ∷ rest else c ∷ rest

-- `str.strip()`.
unfoldable pub strip_left : String → String
strip_left String.[] = ""
strip_left (String.◌∷◌ c s) =
    let rest = strip_left s in if is_space (code c) then rest else String.◌∷◌ c s

unfoldable pub strip_right : String → String
strip_right String.[] = ""
strip_right (String.◌∷◌ c s) =
    let rest = strip_right s in if is_blank (codes (String.◌∷◌ c s)) then "" else String.◌∷◌ c rest

unfoldable pub strip : String → String
unfolding strip_left strip_right
strip s = strip_right (strip_left s)

-- None is NULL.
unfoldable pub cell : Json → Option Json
cell null = none
cell (boolean b) = some (boolean b)
cell (number n) = some (number n)
cell (text s) = some (text s)
cell (array xs) = some (array xs)
cell (object fs) = some (object fs)

abbrev pub time_cell : Option ℕ → Option Json
time_cell none = none
time_cell (some t) = some (number t)

-- A row by its columns.
abbrev pub columns : List (String × Option Json) → Cells
columns [] c = none
columns ((k, v) ∷ rest) c = if str_eq c k then v else columns rest c

-- An id, a name and the other columns, which go into the row with the two.
pub record Stub : Type 0 where
  pub id : String
  pub name : String
  pub cells : Cells

-- `(value or "").strip()`: what is true and not a text has no strip.
unfoldable pub stripped : Json → Option String
unfolding strip
stripped (text s) = some (strip s)
stripped null = some ""
stripped (boolean b) = if b then none else some ""
stripped (number n) = if n == 0 then some "" else none
stripped (array nil) = some ""
stripped (array (cons x xs)) = none
stripped (object Fields.end) = some ""
stripped (object (Fields.field k v fs)) = none

abbrev pub is_empty : String → Bool
is_empty s = str_eq s ""

module _ (py : Python) where
  -- parse_ts.
  unfoldable pub parse_ts : Json → Option (Option ℕ)
  unfolding has_iso_mark replace_z
  parse_ts null = some none
  parse_ts (boolean b) = Option.map some (py.from_timestamp (if b then 1 else 0))
  parse_ts (number n) = Option.map some (py.from_timestamp n)
  parse_ts (text s) =
      some (if has_iso_mark (codes s) then py.from_iso (replace_z (codes s)) else none)
  parse_ts (array xs) = some none
  parse_ts (object fs) = some none

  unfoldable pub synthetic_agent_id : String → String
  synthetic_agent_id name = py.sha256 (append "agent:" (py.lower name))

  unfoldable pub synthetic_submolt_id : String → String
  synthetic_submolt_id name = py.sha256 (append "submolt:" (py.lower name))

  -- `aid.get("id") or synthetic` where the id is an object itself.
  abbrev pub id_of : Json → String → String
  id_of (object fs) synthetic = to_str py.render (get "id" fs or text synthetic)
  id_of null synthetic = to_str py.render null
  id_of (boolean b) synthetic = to_str py.render (boolean b)
  id_of (number n) synthetic = to_str py.render (number n)
  id_of (text s) synthetic = to_str py.render (text s)
  id_of (array xs) synthetic = to_str py.render (array xs)

  abbrev agent_columns : Fields → String → Option ℕ → Cells
  agent_columns body name created = columns (
      ("name", some (text name))
      ∷ ("description", cell (get "description" body))
      ∷ ("created_at_src", time_cell created)
      ∷ ("karma", cell (get "karma" body))
      ∷ ("is_claimed", cell (get "is_claimed" body))
      ∷ ("is_human", cell (get "is_human" body))
      ∷ ("raw_json", some (object body))
      ∷ [])

  abbrev agent_named : Fields → String → Option Stub
  agent_named body name = do
    created ← parse_ts (get "created_at" body)
    some (record {
      id =
          id_of (get "id" body or (get "agent_id" body or text (synthetic_agent_id name)))
            (synthetic_agent_id name);
      name = name;
      cells = agent_columns body name created;
    })

  -- agent_stub: `some none` is None.
  unfoldable pub agent_stub : Fields → Option (Option Stub)
  agent_stub body = do
    name ← stripped (get "name" body or (get "username" body or get "author_name" body))
    if is_empty name then some none else Option.map some (agent_named body name)

  abbrev submolt_columns : Fields → String → Option ℕ → Cells
  submolt_columns body name created = columns (
      ("name", some (text name))
      ∷ ("display_name", cell (get "display_name" body or text name))
      ∷ ("description", cell (get "description" body))
      ∷ ("created_at_src", time_cell created)
      ∷ ("raw_json", some (object body))
      ∷ [])

  abbrev submolt_named : Fields → String → Option Stub
  submolt_named body name = do
    created ← parse_ts (get "created_at" body)
    some (record {
      id = id_of (get "id" body or text (synthetic_submolt_id name)) (synthetic_submolt_id name);
      name = name;
      cells = submolt_columns body name created;
    })

  -- _submolt_stub of textlake/handlers/posts.py, and _submolt_row of textlake/handlers/submolts.py, which
  -- differ in the columns first_seen_at and last_seen_at only.
  unfoldable pub submolt_stub : Fields → Option (Option Stub)
  submolt_stub body = do
    name ← stripped (get "name" body or get "slug" body)
    if is_empty name then some none else Option.map some (submolt_named body name)

  -- `stub(value) if isinstance(value, dict) else None`.
  abbrev pub stub_of : (Fields → Option (Option Stub)) → Json → Option (Option Stub)
  stub_of stub (object fs) = stub fs
  stub_of stub null = some none
  stub_of stub (boolean b) = some none
  stub_of stub (number n) = some none
  stub_of stub (text s) = some none
  stub_of stub (array xs) = some none

  abbrev pub name_cell : Option Stub → Option Json
  name_cell none = none
  name_cell (some stub) = some (text stub.name)

  abbrev pub id_cell : Option Stub → Option Json
  id_cell none = none
  id_cell (some stub) = some (text stub.id)

  abbrev pub name_or_slug : Json → Option Json
  name_or_slug (object fs) = cell (get "name" fs or get "slug" fs)
  name_or_slug null = none
  name_or_slug (boolean b) = none
  name_or_slug (number n) = none
  name_or_slug (text s) = none
  name_or_slug (array xs) = none

  abbrev post_columns : Fields → Option Stub → Option Stub → Option ℕ → Option ℕ → Cells
  post_columns body agent submolt created updated = columns (
      ("submolt_name", name_or_slug (get "submolt" body or object body))
      ∷ ("submolt_id", id_cell submolt)
      ∷ ("author_name", name_cell agent)
      ∷ ("author_id", id_cell agent)
      ∷ ("title", cell (get "title" body))
      ∷ ("content", cell (get "content" body or get "body" body))
      ∷ ("url", cell (get "url" body))
      ∷ ("created_at_src", time_cell created)
      ∷ ("updated_at_src", time_cell updated)
      ∷ ("upvotes", cell (get "upvotes" body))
      ∷ ("downvotes", cell (get "downvotes" body))
      ∷ ("comment_count", cell (get "comment_count" body or get "comments_count" body))
      ∷ ("raw_json", some (object body))
      ∷ [])

  abbrev post_columns_of : Fields → Option Cells
  post_columns_of body = do
    agent ← stub_of agent_stub (get "author" body or object body)
    submolt ← stub_of submolt_stub (get "submolt" body or object body)
    created ← parse_ts (get "created_at" body)
    updated ← parse_ts (get "updated_at" body)
    some (post_columns body agent submolt created updated)

  -- _post_row: the id and the columns.
  unfoldable pub post_row : Fields → Option (Option (String × Cells))
  post_row body =
      if truthy (get "id" body)
      then Option.map (λ cells. some (to_str py.render (get "id" body), cells))
          (post_columns_of body)
      else some none
