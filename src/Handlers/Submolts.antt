-- ===== src/Handlers/Submolts.antt =====
-- The handlers list_submolts and fetch_submolt (textlake/handlers/submolts.py).
use meritmolt.Prelude.{String, true, false, Option, none, some, List, [], ◌∷◌, if◌then◌else◌}
use meritmolt.Errors.{Result, ok, unhandled, or_raise, ◌>>=◌}
use meritmolt.Json.{Json, null, boolean, number, text, array, object, Fields}
use meritmolt.Handlers.Stubs.{Python, Stub, submolt_stub, is_empty}
use meritmolt.Handlers.Store.{Store, Env, put_submolt, put_task, put_stub, add_snapshot, items_of}

-- _submolt_row: the same row as posts.py's stub but for first_seen_at and last_seen_at, which the upserts set.
unfoldable pub submolt_row : Python → Fields → Option (Option Stub)
submolt_row py body = submolt_stub py body

module _ (env : Env) where
  abbrev pub submolt_params : String → Fields
  submolt_params name = Fields.field "name" (text name) Fields.end

  abbrev pub list_stub : Stub → Store → Result Store
  list_stub stub s = do
    s' ← put_submolt env false stub s
    ok (put_task env "fetch_submolt" (submolt_params stub.name) 5 s')

  unfoldable pub list_items : List Json → Store → Result Store
  list_items [] s = ok s
  list_items (null ∷ items) s = list_items items s
  list_items (boolean b ∷ items) s = list_items items s
  list_items (number n ∷ items) s = list_items items s
  list_items (text t ∷ items) s = list_items items s
  list_items (array xs ∷ items) s = list_items items s
  list_items (object fs ∷ items) s = do
    row ← or_raise (submolt_row env.py fs) unhandled
    s' ← put_stub env list_stub row s
    list_items items s'

  -- handle_list_submolts.
  unfoldable pub list_submolts : Result Json → Store → Result Store
  list_submolts fetched s = do body ← fetched; items ← items_of "submolts" body; list_items items s

  abbrev pub enrich_submolt : Fields → Stub → Store → Result Store
  enrich_submolt body stub s = do
    s' ← put_submolt env true stub s
    stats ← add_snapshot env.now stub.id (object body) s'.submolt_stats
    ok (record s' { submolt_stats = stats })

  abbrev pub submolt_body : Json → Store → Result Store
  submolt_body null s = ok s
  submolt_body (boolean b) s = ok s
  submolt_body (number n) s = ok s
  submolt_body (text t) s = ok s
  submolt_body (array xs) s = ok s
  submolt_body (object fs) s = do
    row ← or_raise (submolt_row env.py fs) unhandled
    put_stub env (enrich_submolt fs) row s

  -- handle_fetch_submolt, by the name of the task's parameters.
  unfoldable pub fetch_submolt : Option String → Result Json → Store → Result Store
  fetch_submolt none fetched s = ok s
  fetch_submolt (some name) fetched s =
      if is_empty name then ok s else (do body ← fetched; submolt_body body s)
