-- ===== src/Handlers/Store.antt =====
-- The tables that the crawler's handlers write (textlake/models), and their statements in one transaction:
-- the upserts of textlake/upsert.py with the foreign keys, textlake/handlers/enqueue.py, and the snapshots of
-- textlake/models/timeseries.py.
use meritmolt.Prelude.{
  ℕ, String, Bool, true, false, not, ◌&&◌, ◌==◌, Option, none, some, List, [], ◌∷◌, ◌++◌, find_if,
  is_none, str_eq, if◌then◌else◌,
}
use meritmolt.Errors.{Result, ok, err, unhandled, or_raise, ◌>>=◌}
use meritmolt.Json.{
  Json, null, boolean, number, text, array, object, Items, nil, cons, Fields, ◌or◌, get,
}
use meritmolt.Queue.{Queue, Digests, enqueue}
use meritmolt.Entities.{Cells, Row, Table, has_row_id}
use meritmolt.Entities
use meritmolt.Handlers.Stubs.{Python, Stub, stub_of}

-- A snapshot of a row's counts: its key is its time and the row's id.
pub record Snapshot : Type 0 where
  pub ts : ℕ
  pub id : String
  pub body : Json

-- The columns of mb_post that only fetch_post_comments writes.
pub record Progress : Type 0 where
  pub comments_fetched : ℕ
  pub comments_truncated : Bool
  pub last_comments_fetch_at : Option ℕ

pub record Store : Type 0 where
  pub agents : Table
  pub submolts : Table
  pub posts : Table
  pub comments : Table
  pub progress : String → Progress
  pub tasks : Queue
  pub submolt_stats : List Snapshot
  pub post_stats : List Snapshot
  pub comment_stats : List Snapshot

-- What a handler's transaction uses: the libraries, CITEXT's equality, its time, and the uuid4 of the next
-- task.
pub record Env : Type 0 where
  pub py : Python
  pub digests : Digests
  pub same_name : Json → Json → Bool
  pub now : ℕ
  pub uuid : Queue → ℕ

abbrev pub find_row : Table → String → Option Row
find_row table i = find_if (has_row_id i) table

abbrev pub has_row : Table → String → Bool
has_row table i = not (is_none (find_row table i))

-- A foreign key: NULL, or the id of a row.
unfoldable pub refers : Table → Option Json → Bool
refers table none = true
refers table (some null) = false
refers table (some (boolean b)) = false
refers table (some (number n)) = false
refers table (some (text i)) = has_row table i
refers table (some (array xs)) = false
refers table (some (object fs)) = false

abbrev pub post_keys : Store → Option Row → Bool
post_keys s none = true
post_keys s (some row) =
    refers s.agents (row.cells "author_id") && refers s.submolts (row.cells "submolt_id")

abbrev pub comment_keys : Store → Table → Option Row → Bool
comment_keys s comments none = true
comment_keys s comments (some row) =
    refers s.posts (row.cells "post_id")
    && (refers comments (row.cells "parent_id") && refers s.agents (row.cells "author_id"))

module _ (env : Env) where
  unfoldable pub put_agent : Bool → Stub → Store → Result Store
  put_agent authoritative stub s = do
    agents ← Entities.upsert_agent env.same_name authoritative env.now stub.id stub.cells s.agents
    ok (record s { agents = agents })

  unfoldable pub put_submolt : Bool → Stub → Store → Result Store
  put_submolt authoritative stub s = do
    submolts ←
        Entities.upsert_submolt env.same_name authoritative env.now stub.id stub.cells s.submolts
    ok (record s { submolts = submolts })

  -- The foreign keys are those of the row that the statement leaves.
  unfoldable pub put_post : Bool → String → Cells → Store → Result Store
  put_post authoritative i cells s = do
    posts ← Entities.upsert_post env.same_name authoritative env.now i cells s.posts
    if post_keys s (find_row posts i) then ok (record s { posts = posts }) else err unhandled

  unfoldable pub put_comment : Bool → String → Cells → Store → Result Store
  put_comment authoritative i cells s = do
    comments ← Entities.upsert_comment env.same_name authoritative env.now i cells s.comments
    if comment_keys s comments (find_row comments i)
        then ok (record s { comments = comments })
        else err unhandled

  unfoldable pub put_task : String → Fields → ℕ → Store → Store
  put_task kind params priority s = record s {
    tasks = enqueue env.digests (env.uuid s.tasks) env.now kind (object params) priority s.tasks;
  }

  abbrev pub put_stub : (Stub → Store → Result Store) → Option Stub → Store → Result Store
  put_stub put none s = ok s
  put_stub put (some stub) s = put stub s

  -- `if isinstance(value, dict): stub = ...; if stub: await upsert(...)`.
  abbrev pub put_embedded :
      (Fields → Option (Option Stub)) → (Stub → Store → Result Store) → Json → Store → Result Store
  put_embedded stub put value s = do
    built ← or_raise (stub_of env.py stub value) unhandled
    put_stub put built s

-- A snapshot whose key is taken is an IntegrityError.
abbrev pub is_taken : ℕ → String → Snapshot → Bool
is_taken now i row = (row.ts == now) && str_eq row.id i

unfoldable pub add_snapshot : ℕ → String → Json → List Snapshot → Result (List Snapshot)
add_snapshot now i body rows =
    if is_none (find_if (is_taken now i) rows)
    then ok (rows ++ record { ts = now; id = i; body = body } ∷ [])
    else err unhandled

abbrev pub to_list : Items → List Json
to_list nil = []
to_list (cons x xs) = x ∷ to_list xs

-- `data.get(key) or []`, and a list of the body where that is no list.
abbrev pub listed : Json → Json → List Json
listed body (array xs) = to_list xs
listed body null = body ∷ []
listed body (boolean b) = body ∷ []
listed body (number n) = body ∷ []
listed body (text t) = body ∷ []
listed body (object fs) = body ∷ []

-- The items of a body. A list has no `get` and raises AttributeError, and so does all that is no object.
unfoldable pub items_of : String → Json → Result (List Json)
items_of key (object fs) = ok (listed (object fs) (get key fs or array nil))
items_of key (array xs) = err unhandled
items_of key null = err unhandled
items_of key (boolean b) = err unhandled
items_of key (number n) = err unhandled
items_of key (text t) = err unhandled
