-- ===== src/Handlers/Posts.antt =====
-- The handlers poll_posts_feed and fetch_post (textlake/handlers/posts.py) and search_probe
-- (textlake/handlers/search.py). `fetched` is what client.get comes to.
use meritmolt.Prelude.{
  ℕ, String, Bool, true, false, ◌&&◌, Option, none, some, List, [], ◌∷◌, ltb, if◌then◌else◌,
}
use meritmolt.Errors.{Result, ok, err, unhandled, or_raise, ◌>>=◌}
use meritmolt.Json.{
  Json, null, boolean, number, text, array, object, Fields, Items, truthy, ◌or◌, get,
}
use meritmolt.Auth.Moltbook.{to_str}
use meritmolt.Entities.{Cells}
use meritmolt.Handlers.Stubs.{agent_stub, submolt_stub, post_row, is_empty}
use meritmolt.Handlers.Store.{
  Store, Env, has_row, put_agent, put_submolt, put_post, put_embedded, put_task, add_snapshot,
  items_of, listed,
}

-- {"post_id": i, "sort": "top"}, and {"post_id": i}.
abbrev pub comments_params : String → Fields
comments_params i = Fields.field "post_id" (text i) (Fields.field "sort" (text "top") Fields.end)

abbrev pub post_params : String → Fields
post_params i = Fields.field "post_id" (text i) Fields.end

-- `data.get("comment_count") or data.get("comments_count")`.
abbrev pub comment_count : Fields → Json
comment_count body = get "comment_count" body or get "comments_count" body

-- `post.comments_fetched < count`; what is no number raises TypeError, and None is not asked.
abbrev pub is_behind : ℕ → Json → Result Bool
is_behind n null = ok false
is_behind n (number m) = ok (ltb n m)
is_behind n (boolean b) = ok (ltb n (if b then 1 else 0))
is_behind n (text s) = err unhandled
is_behind n (array xs) = err unhandled
is_behind n (object fs) = err unhandled

module _ (env : Env) where
  abbrev pub put_post_row : Bool → Option (String × Cells) → Store → Result Store
  put_post_row authoritative none s = ok s
  put_post_row authoritative (some (i, cells)) s = put_post env authoritative i cells s

  -- The stubs of a body's author and submolt.
  unfoldable pub put_stubs : Fields → Store → Result Store
  put_stubs body s = do
    s₁ ← put_embedded env (agent_stub env.py) (put_agent env false) (get "author" body) s
    put_embedded env (submolt_stub env.py) (put_submolt env false) (get "submolt" body) s₁

  -- The two tasks for a post.
  abbrev pub put_tasks : Option (String × Cells) → Store → Store
  put_tasks none s = s
  put_tasks (some (i, cells)) s =
      put_task env "fetch_post_comments" (comments_params i) 4
        (put_task env "fetch_post" (post_params i) 6 s)

  unfoldable pub poll_item : Fields → Store → Result Store
  poll_item body s = do
    s₁ ← put_stubs body s
    row ← or_raise (post_row env.py body) unhandled
    s₂ ← put_post_row false row s₁
    ok (put_tasks row s₂)

  unfoldable pub poll_items : List Json → Store → Result Store
  poll_items [] s = ok s
  poll_items (null ∷ items) s = poll_items items s
  poll_items (boolean b ∷ items) s = poll_items items s
  poll_items (number n ∷ items) s = poll_items items s
  poll_items (text t ∷ items) s = poll_items items s
  poll_items (array xs ∷ items) s = poll_items items s
  poll_items (object fs ∷ items) s = do s' ← poll_item fs s; poll_items items s'

  unfoldable pub snap_post : String → Fields → Store → Result Store
  snap_post i body s = do
    stats ← add_snapshot env.now i (object body) s.post_stats
    ok (record s { post_stats = stats })

  unfoldable pub snap_posts : List Json → Store → Result Store
  snap_posts [] s = ok s
  snap_posts (null ∷ items) s = snap_posts items s
  snap_posts (boolean b ∷ items) s = snap_posts items s
  snap_posts (number n ∷ items) s = snap_posts items s
  snap_posts (text t ∷ items) s = snap_posts items s
  snap_posts (array xs ∷ items) s = snap_posts items s
  snap_posts (object fs ∷ items) s = do
    s' ←
        (if truthy (get "id" fs) then snap_post (to_str env.py.render (get "id" fs)) fs s else ok s)
    snap_posts items s'

  -- handle_poll_posts_feed.
  unfoldable pub poll_posts_feed : Result Json → Store → Result Store
  poll_posts_feed fetched s = do
    body ← fetched
    items ← items_of "posts" body
    s₁ ← poll_items items s
    snap_posts items s₁

  abbrev pub enqueue_behind : String → Bool → Store → Store
  enqueue_behind post_id behind s =
      if behind then put_task env "fetch_post_comments" (comments_params post_id) 5 s else s

  -- The comments are fetched again where the post has fewer than the body says.
  unfoldable pub refetch : String → Fields → Store → Result Store
  refetch post_id body s =
      if has_row s.posts post_id
      then (do
        behind ← is_behind (s.progress post_id).comments_fetched (comment_count body)
        ok (enqueue_behind post_id behind s))
      else ok s

  abbrev pub enrich_post : String → Fields → Option (String × Cells) → Store → Result Store
  enrich_post post_id body none s = ok s
  enrich_post post_id body (some (i, cells)) s = do
    s₁ ← put_post env true i cells s
    s₂ ← snap_post (to_str env.py.render (get "id" body)) body s₁
    refetch post_id body s₂

  abbrev pub post_body : String → Json → Store → Result Store
  post_body post_id null s = ok s
  post_body post_id (boolean b) s = ok s
  post_body post_id (number n) s = ok s
  post_body post_id (text t) s = ok s
  post_body post_id (array xs) s = ok s
  post_body post_id (object fs) s = do
    s₁ ← put_stubs fs s
    row ← or_raise (post_row env.py fs) unhandled
    enrich_post post_id fs row s₁

  -- handle_fetch_post. Where the row is None the handler returns before its commit, and the worker's
  -- commit writes the stubs.
  unfoldable pub fetch_post : Option String → Result Json → Store → Result Store
  fetch_post none fetched s = ok s
  fetch_post (some post_id) fetched s =
      if is_empty post_id then ok s else (do body ← fetched; post_body post_id body s)

  abbrev pub probe_item : Fields → Store → Result Store
  probe_item body s =
      if truthy (get "id" body) && truthy (get "title" body)
      then (do row ← or_raise (post_row env.py body) unhandled; put_post_row false row s)
      else ok s

  unfoldable pub probe_items : List Json → Store → Result Store
  probe_items [] s = ok s
  probe_items (null ∷ items) s = probe_items items s
  probe_items (boolean b ∷ items) s = probe_items items s
  probe_items (number n ∷ items) s = probe_items items s
  probe_items (text t ∷ items) s = probe_items items s
  probe_items (array xs ∷ items) s = probe_items items s
  probe_items (object fs ∷ items) s = do s' ← probe_item fs s; probe_items items s'

  -- `if not isinstance(items, list): return`.
  abbrev pub probe_listed : Json → Store → Result Store
  probe_listed (array xs) s = probe_items (listed null (array xs)) s
  probe_listed null s = ok s
  probe_listed (boolean b) s = ok s
  probe_listed (number n) s = ok s
  probe_listed (text t) s = ok s
  probe_listed (object fs) s = ok s

  abbrev pub probe_body : Json → Store → Result Store
  probe_body (object fs) s =
      probe_listed (get "items" fs or (get "data" fs or (get "results" fs or array Items.nil))) s
  probe_body null s = ok s
  probe_body (boolean b) s = ok s
  probe_body (number n) s = ok s
  probe_body (text t) s = ok s
  probe_body (array xs) s = ok s

  -- handle_search_probe.
  unfoldable pub search_probe : Fields → Result Json → Store → Result Store
  search_probe params fetched s =
      if truthy (get "q" params or get "query" params)
      then (do body ← fetched; probe_body body s)
      else ok s
