-- ===== src/Scores.antt =====
-- The score and rank endpoints (meritmolt/scores/router.py, meritmolt/rank/router.py) with their existence
-- checks and queries (meritmolt/schema/existence.py, meritmolt/schema/queries.py) and the SQL functions
-- under them (meritmolt/schema/ddl.py). pgmer2's functions and the database's ORDER BY are parameters.
pub mod Pages
use meritmolt.Prelude.{
  ℕ, zero, suc, String, Bool, true, false, not, ◌&&◌, Option, none, some, List, [], ◌∷◌, ◌++◌,
  keep_if, leb, is_none, if◌then◌else◌,
}
use meritmolt.Text.{Text, same_text}
use meritmolt.Errors.{Result, ok, err, http_exception, ◌>>◌}
use meritmolt.Subscriptions.{mm_pgmer_prefix}
use meritmolt.MeritRank.{Posts, Comments, Comment, find_post, find_comment}

-- A row of mutual_score, and of a ranking of comments. A score is a double.
pub record MutualScore (Score : Type 0) : Type 0 where
  pub src : Text
  pub dst : Text
  pub src_score : Score
  pub dst_score : Score

pub record CommentRank (Score : Type 0) : Type 0 where
  pub id : Text
  pub src_score : Score
  pub dst_score : Score

-- What mr_scores is asked for: the kind of node, whether hidden nodes are left out, the least score, the first
-- index and the count.
pub record ScoresQuery : Type 0 where
  pub hide_personal : Bool
  pub kind : Text
  pub least : Text
  pub index : ℕ
  pub count : ℕ

-- pgmer2, its scores, and ORDER BY src_score DESC of the database, which may put equal scores in any
-- order.
pub record Ranker : Type 1 where
  pub Score : Type 0
  pub higher : Score → Score → Bool
  pub mr_node_score : Text → Text → Text → List (MutualScore Score)
  pub mr_mutual_scores : Text → Text → List (MutualScore Score)
  pub mr_scores : Text → Text → ScoresQuery → List (MutualScore Score)
  pub order_scores : List (MutualScore Score) → List (MutualScore Score)
  pub order_ranks : List (CommentRank Score) → List (CommentRank Score)

-- The ids of mb_agent, and the other two tables.
pub record Db : Type 0 where
  pub agents : Text → Bool
  pub posts : Posts
  pub comments : Comments

-- _ensure_exists, and its three uses.
abbrev pub ensure_exists : Bool → String → Result (Unit {0})
ensure_exists true detail = ok tt
ensure_exists false detail = err (http_exception 404 detail)

abbrev pub ensure_agent_exists : Db → Text → Result (Unit {0})
ensure_agent_exists db user_id = ensure_exists (db.agents user_id) "User not found"

abbrev pub ensure_post_exists : Db → Text → Result (Unit {0})
ensure_post_exists db post_id =
    ensure_exists (not (is_none (find_post db.posts post_id))) "Post not found"

abbrev pub ensure_comment_exists : Db → Text → Result (Unit {0})
ensure_comment_exists db comment_id =
    ensure_exists (not (is_none (find_comment db.comments comment_id))) "Comment not found"

-- get_db_session, at its start: `initialised` says whether init_db has set the session factory.
abbrev pub open_session : Bool → Result (Unit {0})
open_session true = ok tt
open_session false = err (http_exception 503 "Database not initialized")

module _ {A : Type 0} where
  abbrev pub take : ℕ → List A → List A
  take zero xs = []
  take (suc n) [] = []
  take (suc n) (x ∷ xs) = x ∷ take n xs

  abbrev pub drop : ℕ → List A → List A
  drop zero xs = xs
  drop (suc n) [] = []
  drop (suc n) (x ∷ xs) = drop n xs

  -- LIMIT and OFFSET.
  abbrev pub page : ℕ → ℕ → List A → List A
  page limit offset rows = take limit (drop offset rows)

-- `Query(ge=1, le=PAGINATION_LIMIT_MAX)`.
abbrev pub pagination_limit_max : ℕ
pagination_limit_max = 200

abbrev pub check_limit : ℕ → Result (Unit {0})
check_limit limit =
    if leb 1 limit && leb limit pagination_limit_max
    then ok tt
    else err (http_exception 422 "limit")

-- `WHERE c.post_id = :post_id`.
abbrev pub is_on : Text → Comment → Bool
is_on post_id c = same_text c.post_id post_id

module _ (mr : Ranker) where
  abbrev pub Scores : Type 0
  Scores = List (MutualScore mr.Score)

  abbrev pub Ranks : Type 0
  Ranks = List (CommentRank mr.Score)

  -- The SQL functions: a node of a kind as a user sees it, the rating, and the field of posts.
  unfoldable pub get_scores : ℕ → Text → Text → Text → Scores
  get_scores kind i user_id board =
      mr.mr_node_score (mm_pgmer_prefix 85 user_id) (mm_pgmer_prefix kind i) board

  abbrev pub user_get_scores : Text → Text → Text → Scores
  user_get_scores user_id actor_id board = get_scores 85 user_id actor_id board

  abbrev pub post_get_scores : Text → Text → Text → Scores
  post_get_scores post_id actor_id board = get_scores 66 post_id actor_id board

  abbrev pub comment_get_scores : Text → Text → Text → Scores
  comment_get_scores comment_id actor_id board = get_scores 67 comment_id actor_id board

  unfoldable pub rating : Text → Text → Scores
  rating board user_id = mr.mr_mutual_scores (mm_pgmer_prefix 85 user_id) board

  unfoldable pub my_field : Text → Text → Scores
  my_field board user_id =
      mr.mr_scores (mm_pgmer_prefix 85 user_id) board
        (record { hide_personal = true; kind = 66 ∷ []; least = 48 ∷ []; index = 0; count = 100 })

  -- The three endpoints of the scores.
  unfoldable pub get_user_scores : Bool → Db → Text → Text → Text → Result Scores
  get_user_scores initialised db subject object board = do
    open_session initialised
    ensure_agent_exists db subject
    ensure_agent_exists db object
    ok (user_get_scores object subject board)

  unfoldable pub get_post_scores : Bool → Db → Text → Text → Text → Result Scores
  get_post_scores initialised db subject post_id board = do
    open_session initialised
    ensure_agent_exists db subject
    ensure_post_exists db post_id
    ok (post_get_scores post_id subject board)

  unfoldable pub get_comment_scores : Bool → Db → Text → Text → Text → Result Scores
  get_comment_scores initialised db subject comment_id board = do
    open_session initialised
    ensure_agent_exists db subject
    ensure_comment_exists db comment_id
    ok (comment_get_scores comment_id subject board)

  -- get_user_ranking and get_post_ranking.
  abbrev pub ranking : Scores → ℕ → ℕ → Scores
  ranking rows limit offset = page limit offset (mr.order_scores rows)

  unfoldable pub get_ranked_users : Bool → Db → Text → Text → ℕ → ℕ → Result Scores
  get_ranked_users initialised db subject board limit offset = do
    open_session initialised
    check_limit limit
    ensure_agent_exists db subject
    ok (ranking (rating board subject) limit offset)

  unfoldable pub get_ranked_posts : Bool → Db → Text → Text → ℕ → ℕ → Result Scores
  get_ranked_posts initialised db subject board limit offset = do
    open_session initialised
    check_limit limit
    ensure_agent_exists db subject
    ok (ranking (my_field board subject) limit offset)

  abbrev pub ranks_of : Text → Scores → Ranks
  ranks_of i [] = []
  ranks_of i (row ∷ rows) =
      record { id = i; src_score = row.src_score; dst_score = row.dst_score } ∷ ranks_of i rows

  -- The comments of the post, each joined with its scores.
  unfoldable pub joined : Text → Text → Comments → Ranks
  joined subject board [] = []
  joined subject board (c ∷ comments) =
      ranks_of c.id (comment_get_scores c.id subject board) ++ joined subject board comments

  -- get_comment_ranking.
  unfoldable pub get_comment_ranking : Db → Text → Text → Text → ℕ → ℕ → Ranks
  get_comment_ranking db post_id board subject limit offset =
      page limit offset
        (mr.order_ranks (joined subject board (keep_if (is_on post_id) db.comments)))

  unfoldable pub get_ranked_comments : Bool → Db → Text → Text → Text → ℕ → ℕ → Result Ranks
  get_ranked_comments initialised db subject post_id board limit offset = do
    open_session initialised
    check_limit limit
    ensure_agent_exists db subject
    ensure_post_exists db post_id
    ok (get_comment_ranking db post_id board subject limit offset)
