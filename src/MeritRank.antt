-- ===== src/MeritRank.antt =====
-- The MeritRank edges of posts and comments (meritmolt/schema/ddl.py): the triggers of the tables
-- mb_post and mb_comment (textlake/models/entities.py) on the crawler's upserts (textlake/upsert.py),
-- and meritrank_init. A row has the columns that the triggers read. The calls of pgmer2 are a list, the
-- latest first, as in Subscriptions.
pub mod Nodes
pub mod Weights
pub mod Touched
pub mod Sound
pub mod Untouched
pub mod Rebuild
pub mod NewPost
pub mod NewComment
pub mod Steady
pub mod Boards
pub mod Triggers
pub mod History
pub mod Bulk
use meritmolt.Prelude.{
  ℕ, Bool, true, false, not, ◌&&◌, ◌||◌, Option, none, some, List, [], ◌∷◌, ◌++◌, ◌==◌, find_if,
  update_if, count_if, is_none, if◌then◌else◌,
}
use meritmolt.Text.{Text, same_text}
use meritmolt.Errors.{Result, ok, err, unhandled}
use meritmolt.Subscriptions.{Call, put_edge, delete_edge, mm_pgmer_prefix, bump_vsids}

pub record Post : Type 0 where
  pub id : Text
  pub author_id : Text
  pub submolt_id : Option Text
  pub ticker : ℕ

pub record Comment : Type 0 where
  pub id : Text
  pub post_id : Text
  pub parent_id : Option Text
  pub author_id : Text
  pub ticker : ℕ

abbrev pub Posts : Type 0
Posts = List Post

abbrev pub Comments : Type 0
Comments = List Comment

-- The tables, user_vsids and the calls.
pub record Lake : Type 0 where
  pub posts : Posts
  pub comments : Comments
  pub vsids : Text → ℕ
  pub calls : List Call

-- The name of a submolt by its id.
abbrev pub Names : Type 0
Names = Text → Option Text

abbrev pub name_or_empty : Option Text → Text
name_or_empty none = []
name_or_empty (some name) = name

-- mm_get_board.
unfoldable pub mm_get_board : Names → Option Text → Text
mm_get_board names none = []
mm_get_board names (some submolt_id) = name_or_empty (names submolt_id)

abbrev pub has_post_id : Text → Post → Bool
has_post_id i row = same_text row.id i

abbrev pub has_comment_id : Text → Comment → Bool
has_comment_id i row = same_text row.id i

abbrev pub find_post : Posts → Text → Option Post
find_post posts i = find_if (has_post_id i) posts

abbrev pub find_comment : Comments → Text → Option Comment
find_comment comments i = find_if (has_comment_id i) comments

abbrev pub board_of : Names → Option Post → Text
board_of names none = []
board_of names (some row) = mm_get_board names row.submolt_id

-- mm_get_board of the submolt of the post with an id.
unfoldable pub post_board : Names → Posts → Text → Text
post_board names posts post_id = board_of names (find_post posts post_id)

-- `p_author_id IS DISTINCT FROM` the author of a row, which is NULL where there is no row.
abbrev pub distinct_from_post : Text → Option Post → Bool
distinct_from_post author none = true
distinct_from_post author (some row) = not (same_text author row.author_id)

abbrev pub distinct_from_comment : Text → Option Comment → Bool
distinct_from_comment author none = true
distinct_from_comment author (some row) = not (same_text author row.author_id)

-- `p_exclude_id IS NULL OR c.id <> p_exclude_id`.
abbrev pub is_counted : Option Text → Comment → Bool
is_counted none row = true
is_counted (some i) row = not (same_text row.id i)

abbrev pub is_on_post : Text → Text → Comment → Bool
is_on_post author post_id row = same_text row.author_id author && same_text row.post_id post_id

abbrev pub has_parent : Option Text → Text → Bool
has_parent none i = false
has_parent (some p) i = same_text p i

abbrev pub is_reply_to : Text → Text → Comment → Bool
is_reply_to author parent row = same_text row.author_id author && has_parent row.parent_id parent

-- The edge with the count as its weight, or no edge.
abbrev pub put_count : Text → Text → ℕ → Text → ℕ → List Call → List Call
put_count src dst cnt board ticker calls =
    if cnt == 0
    then delete_edge src dst board ∷ calls
    else put_edge src dst cnt board ticker ∷ calls

unfoldable pub mm_sync_comment_upvote_edge :
    Posts → Comments → Text → Text → Text → ℕ → Option Text → List Call → List Call
mm_sync_comment_upvote_edge posts comments author post_id board ticker exclude calls =
    if distinct_from_post author (find_post posts post_id)
    then put_count (mm_pgmer_prefix 85 author) (mm_pgmer_prefix 66 post_id)
        (count_if (λ c. is_counted exclude c && is_on_post author post_id c) comments) board ticker
        calls
    else calls

unfoldable pub mm_sync_reply_upvote_edge :
    Comments → Text → Text → Text → ℕ → Option Text → List Call → List Call
mm_sync_reply_upvote_edge comments author parent board ticker exclude calls =
    if distinct_from_comment author (find_comment comments parent)
    then put_count (mm_pgmer_prefix 85 author) (mm_pgmer_prefix 67 parent)
        (count_if (λ c. is_counted exclude c && is_reply_to author parent c) comments) board ticker
        calls
    else calls

-- `IF parent_id IS NOT NULL`.
abbrev pub sync_parent :
    Comments → Comment → Text → Option Text → Option Text → List Call → List Call
sync_parent comments c board none exclude calls = calls
sync_parent comments c board (some parent) exclude calls =
    mm_sync_reply_upvote_edge comments c.author_id parent board c.ticker exclude calls

-- The two edges between a row and its author.
unfoldable pub put_author : ℕ → Text → Text → Text → ℕ → List Call → List Call
put_author kind i author board ticker calls =
    put_edge (mm_pgmer_prefix 85 author) (mm_pgmer_prefix kind i) 1 board ticker
    ∷ put_edge (mm_pgmer_prefix kind i) (mm_pgmer_prefix 85 author) 1 board 0
    ∷ calls

-- The INSERT branch of notify_meritrank_mb_post_mutation.
unfoldable pub notify_post_insert : Names → Post → List Call → List Call
notify_post_insert names p calls =
    put_author 66 p.id p.author_id (mm_get_board names p.submolt_id) p.ticker calls

-- The INSERT branch of notify_meritrank_mb_comment_mutation; the tables have the row.
unfoldable pub notify_comment_insert : Names → Posts → Comments → Comment → List Call → List Call
notify_comment_insert names posts comments c calls =
    let board = post_board names posts c.post_id in
    sync_parent comments c board c.parent_id none (
      mm_sync_comment_upvote_edge posts comments c.author_id c.post_id board c.ticker none
        (put_author 67 c.id c.author_id board c.ticker calls))

-- COALESCE(excluded, old).
abbrev pub coalesce : Option Text → Option Text → Option Text
coalesce none old = old
coalesce (some new) old = some new

abbrev pub enriched_post : Post → Post → Post
enriched_post new old = record old {
  author_id = new.author_id;
  submolt_id = coalesce new.submolt_id old.submolt_id;
}

abbrev pub enriched_comment : Comment → Comment → Comment
enriched_comment new old = record old {
  post_id = new.post_id;
  parent_id = coalesce new.parent_id old.parent_id;
  author_id = new.author_id;
}

abbrev pub is_known : Names → Option Text → Bool
is_known names none = true
is_known names (some i) = not (is_none (names i))

-- An INSERT ... ON CONFLICT (id) DO UPDATE that keeps its foreign keys. The BEFORE INSERT trigger
-- bumps the author's counter in both cases; an UPDATE writes the enrichment columns only and tells
-- MeritRank nothing.
unfoldable pub write_post : Names → Option Post → Post → Lake → Lake
write_post names none p lake =
    let vsids = bump_vsids p.author_id lake.vsids in
    let row = record p { ticker = vsids p.author_id } in
    record lake {
      posts = lake.posts ++ row ∷ [];
      vsids = vsids;
      calls = notify_post_insert names row lake.calls;
    }
write_post names (some old) p lake = record lake {
  posts = update_if (has_post_id p.id) (enriched_post p) lake.posts;
  vsids = bump_vsids p.author_id lake.vsids;
}

unfoldable pub write_comment : Names → Option Comment → Comment → Lake → Lake
write_comment names none c lake =
    let vsids = bump_vsids c.author_id lake.vsids in
    let row = record c { ticker = vsids c.author_id } in
    let comments = lake.comments ++ row ∷ [] in
    record lake {
      comments = comments;
      vsids = vsids;
      calls = notify_comment_insert names lake.posts comments row lake.calls;
    }
write_comment names (some old) c lake = record lake {
  comments = update_if (has_comment_id c.id) (enriched_comment c) lake.comments;
  vsids = bump_vsids c.author_id lake.vsids;
}

-- The foreign keys of the row that is written; a comment may name itself as its parent.
abbrev pub parent_known : Comments → Text → Option Text → Bool
parent_known comments i none = true
parent_known comments i (some p) = same_text p i || not (is_none (find_comment comments p))

module _ (names : Names) (known : Text → Bool) where
  unfoldable pub upsert_post : Post → Lake → Result Lake
  upsert_post p lake =
      if known p.author_id && is_known names p.submolt_id
      then ok (write_post names (find_post lake.posts p.id) p lake)
      else err unhandled

  unfoldable pub upsert_comment : Comment → Lake → Result Lake
  upsert_comment c lake =
      if known c.author_id
        && (not (is_none (find_post lake.posts c.post_id))
            && parent_known lake.comments c.id c.parent_id)
      then ok (write_comment names (find_comment lake.comments c.id) c lake)
      else err unhandled

pub data Upsert : Type 0 where
  of_post : Post → Upsert
  of_comment : Comment → Upsert

abbrev pub kept_or : Lake → Result Lake → Lake
kept_or lake (ok after) = after
kept_or lake (err e) = lake

unfoldable pub upsert : Names → (Text → Bool) → Upsert → Lake → Lake
upsert names known (of_post p) lake = kept_or lake (upsert_post names known p lake)
upsert names known (of_comment c) lake = kept_or lake (upsert_comment names known c lake)

-- An upsert, with the names of mb_submolt and the ids of mb_agent at its time.
pub record Write : Type 0 where
  pub names : Names
  pub known : Text → Bool
  pub row : Upsert

-- A history of upserts; one that raises changes nothing.
unfoldable pub upserts : List Write → Lake → Lake
upserts [] lake = lake
upserts (u ∷ us) lake = upserts us (upsert u.names u.known u.row lake)

-- meritrank_init, for posts and comments: the calls that it adds.
unfoldable pub init_posts : Names → Posts → List Call → List Call
init_posts names [] calls = calls
init_posts names (p ∷ rest) calls = init_posts names rest (notify_post_insert names p calls)

unfoldable pub init_comments : Names → Posts → Comments → Comments → List Call → List Call
init_comments names posts comments [] calls = calls
init_comments names posts comments (c ∷ rest) calls =
    init_comments names posts comments rest (notify_comment_insert names posts comments c calls)

unfoldable pub meritrank_init : Names → Lake → List Call → List Call
meritrank_init names lake calls =
    init_comments names lake.posts lake.comments lake.comments (init_posts names lake.posts calls)

abbrev pub empty_lake : Lake
empty_lake = record { posts = []; comments = []; vsids = λ _. 0; calls = [] }
