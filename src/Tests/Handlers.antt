-- ===== src/Tests/Handlers.antt =====
-- The crawler's handlers on concrete bodies (textlake/handlers).
use meritmolt.Prelude.{◌≡◌, refl, String, true, false, Option, none, some, List, [], ◌∷◌, length}
use meritmolt.Text.{is_space, is_blank}
use meritmolt.Errors.{ok, err, unhandled}
use meritmolt.Json.{text, array, object, Items, Fields, ◌or◌, truthy, get}
use meritmolt.Auth.Moltbook.{to_str}
use meritmolt.Entities.{
  upsert_agent, upsert_submolt, upsert_post, enrichment_upsert, name_taken, mb_agent, mb_submolt,
  mb_post, enrich, set_cell,
}
use meritmolt.Comments.{CommentRow}
use meritmolt.Handlers.Stubs.{
  agent_stub, submolt_stub, stripped, parse_ts, cell, post_row, synthetic_agent_id,
}
use meritmolt.Handlers.Store.{
  Store, Env, put_agent, put_submolt, put_post, put_task, refers, add_snapshot, items_of,
}
use meritmolt.Handlers.PostComments.{ordered}
use meritmolt.Handlers.Posts.{
  poll_item, poll_posts_feed, poll_items, snap_posts, snap_post, put_stubs,
}
use meritmolt.Handlers.Settled.{KeepsParents, ordered-KeepsParents}
use meritmolt.Handlers.Authors.{is_err, authorless_refused}

abbrev env : Env
env = record {
  py = record {
    render = λ j. "?";
    lower = λ s. s;
    sha256 = λ s. s;
    from_timestamp = λ n. some n;
    from_iso = λ t. none;
  };
  digests = record { sha256 = λ t. "key"; dumps = λ j. [] };
  same_name = λ a b. false;
  now = 7;
  uuid = length;
}

abbrev empty_store : Store
empty_store = record {
  agents = [];
  submolts = [];
  posts = [];
  comments = [];
  progress = λ i. record {
    comments_fetched = 0;
    comments_truncated = false;
    last_comments_fetch_at = none;
  };
  tasks = [];
  submolt_stats = [];
  post_stats = [];
  comment_stats = [];
}

abbrev row : String → Option String → CommentRow
row i parent = record { id = i; parent_id = parent; rest = λ c. none }

abbrev batch : List CommentRow
batch = row "b" (some "a") ∷ row "a" none ∷ row "c" (some "c") ∷ row "d" (some "gone") ∷ []

ordered-KeepsParents_example : KeepsParents env empty_store (ordered env empty_store batch)
ordered-KeepsParents_example =
    ordered-KeepsParents env empty_store batch (refl, (refl, (refl, (refl, tt))))

-- A post without an author object.
abbrev flat : Fields
flat =
    Fields.field "id" (text "p1")
      (Fields.field "author_name" (text "ann") (Fields.field "title" (text "hi") Fields.end))

authorless_refused_example : is_err (poll_item env flat empty_store) ≡ true
unfolding get
authorless_refused_example = authorless_refused env flat "p1" empty_store refl refl refl refl

-- The same with an author.
abbrev whole : Fields
whole =
    Fields.field "author"
      (object (Fields.field "id" (text "u1") (Fields.field "name" (text " ann ") Fields.end))) flat

polled :
    is_err (
      poll_posts_feed env
        (ok
          (object (Fields.field "posts" (array (Items.cons (object whole) Items.nil)) Fields.end)))
        empty_store)
    ≡ false
unfolding poll_posts_feed poll_items poll_item put_stubs snap_posts snap_post items_of get ◌or◌
    truthy agent_stub submolt_stub stripped parse_ts cell post_row synthetic_agent_id to_str
    put_agent put_submolt put_post put_task refers add_snapshot upsert_agent upsert_submolt
    upsert_post is_space is_blank enrichment_upsert name_taken mb_agent mb_submolt mb_post enrich
    set_cell
polled = refl

-- MoltBook may send a list, which has no `get`.
list_refused : poll_posts_feed env (ok (array Items.nil)) empty_store ≡ err unhandled
unfolding poll_posts_feed items_of
list_refused = refl
