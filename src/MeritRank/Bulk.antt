-- ===== src/MeritRank/Bulk.antt =====
-- meritrank_bulk_init (meritmolt/schema/ddl.py): the edges that it selects and its calls of pgmer2. The five
-- arrays are one list of rows, and the order of their rows is an argument.
pub mod Groups
pub mod Rows
pub mod Counted
pub mod Followed
pub mod Loaded
pub mod Covered
pub mod Replies
pub mod Agreement
pub mod Restart
use meritmolt.Prelude.{
  ℕ, Bool, true, false, not, ◌&&◌, Option, none, some, List, [], ◌∷◌, ◌++◌, length, keep_if,
  count_if, is_none, if◌then◌else◌,
}
use meritmolt.Text.{Text, same_text}
use meritmolt.Subscriptions.{Subscribe, Call, mm_pgmer_prefix, notify_put}
use meritmolt.MeritRank.{
  Post, Comment, Posts, Comments, Names, Lake, mm_get_board, post_board, find_post, find_comment,
  distinct_from_post, is_on_post, is_reply_to, meritrank_init,
}

pub record BulkEdge : Type 0 where
  pub src : Text
  pub dst : Text
  pub weight : ℕ
  pub magnitude : ℕ
  pub context : Text

module _ {A B : Type 0} where
  -- SELECT an expression FROM rows.
  abbrev pub select : (A → B) → List A → List B
  select f [] = []
  select f (x ∷ xs) = f x ∷ select f xs

module _ {A : Type 0} where
  -- GROUP BY: one row of each group, `same x` being the test of x's group.
  abbrev pub group_by : (A → A → Bool) → List A → List A
  group_by same [] = []
  group_by same (x ∷ xs) = x ∷ keep_if (λ y. not (same x y)) (group_by same xs)

-- 1: a follow.
abbrev pub subscribe_edge : Subscribe → BulkEdge
subscribe_edge s = record {
  src = mm_pgmer_prefix 85 s.subject;
  dst = mm_pgmer_prefix 85 s.object;
  weight = s.amount;
  magnitude = s.ticker;
  context = [];
}

-- 2 and 3: a row to its author, and back.
abbrev pub author_edge : ℕ → Text → Text → Text → BulkEdge
author_edge kind i author board = record {
  src = mm_pgmer_prefix kind i;
  dst = mm_pgmer_prefix 85 author;
  weight = 1;
  magnitude = 0;
  context = board;
}

abbrev pub own_edge : ℕ → Text → Text → ℕ → Text → BulkEdge
own_edge kind i author ticker board = record {
  src = mm_pgmer_prefix 85 author;
  dst = mm_pgmer_prefix kind i;
  weight = 1;
  magnitude = ticker;
  context = board;
}

-- `JOIN mb_post p ON c.post_id = p.id`.
abbrev pub has_post : Posts → Text → Bool
has_post posts i = not (is_none (find_post posts i))

-- A comment with its post, of another author.
abbrev pub on_others : Posts → Comment → Bool
on_others posts c =
    has_post posts c.post_id && distinct_from_post c.author_id (find_post posts c.post_id)

-- `JOIN mb_comment p ON c.parent_id = p.id`.
abbrev pub parent_row : Comments → Option Text → Option Comment
parent_row comments none = none
parent_row comments (some i) = find_comment comments i

-- A reply with its parent and the parent's post, the parent of another author.
abbrev pub answers_other : Posts → Text → Option Comment → Bool
answers_other posts author none = false
answers_other posts author (some p) = has_post posts p.post_id && not (same_text author p.author_id)

abbrev pub parent_id_of : Option Comment → Text
parent_id_of none = []
parent_id_of (some p) = p.id

abbrev pub parent_board : Names → Posts → Option Comment → Text
parent_board names posts none = []
parent_board names posts (some p) = post_board names posts p.post_id

module _ (names : Names) (posts : Posts) (comments : Comments) where
  unfoldable pub post_to_author : Post → BulkEdge
  post_to_author p = author_edge 66 p.id p.author_id (mm_get_board names p.submolt_id)

  unfoldable pub author_to_post : Post → BulkEdge
  author_to_post p = own_edge 66 p.id p.author_id p.ticker (mm_get_board names p.submolt_id)

  unfoldable pub comment_to_author : Comment → BulkEdge
  comment_to_author c = author_edge 67 c.id c.author_id (post_board names posts c.post_id)

  unfoldable pub author_to_comment : Comment → BulkEdge
  author_to_comment c = own_edge 67 c.id c.author_id c.ticker (post_board names posts c.post_id)

  abbrev pub joined_comments : Comments
  joined_comments = keep_if (λ c. has_post posts c.post_id) comments

  -- 4: the comments on posts of others, and an edge of a group of them.
  abbrev pub upvotes : Comments
  upvotes = keep_if (on_others posts) comments

  abbrev pub same_upvote : Comment → Comment → Bool
  same_upvote c = is_on_post c.author_id c.post_id

  unfoldable pub upvote_edge : Comment → BulkEdge
  upvote_edge c = record {
    src = mm_pgmer_prefix 85 c.author_id;
    dst = mm_pgmer_prefix 66 c.post_id;
    weight = count_if (same_upvote c) upvotes;
    magnitude = 0;
    context = post_board names posts c.post_id;
  }

  -- 5: the replies to comments of others, and an edge of a group of them.
  abbrev pub replies : Comments
  replies =
      keep_if (λ c. answers_other posts c.author_id (parent_row comments c.parent_id)) comments

  abbrev pub same_reply : Comment → Comment → Bool
  same_reply c = is_reply_to c.author_id (parent_id_of (parent_row comments c.parent_id))

  unfoldable pub reply_edge : Comment → BulkEdge
  reply_edge c = record {
    src = mm_pgmer_prefix 85 c.author_id;
    dst = mm_pgmer_prefix 67 (parent_id_of (parent_row comments c.parent_id));
    weight = count_if (same_reply c) replies;
    magnitude = 0;
    context = parent_board names posts (parent_row comments c.parent_id);
  }

  -- The UNION ALL. A post has one submolt, so that s.name splits no group.
  unfoldable pub bulk_edges : List Subscribe → List BulkEdge
  bulk_edges subs =
      select subscribe_edge subs
      ++ (select post_to_author posts
          ++ (select author_to_post posts
              ++ (select comment_to_author joined_comments
                  ++ (select author_to_comment joined_comments
                      ++ (select upvote_edge (group_by same_upvote upvotes)
                          ++ select reply_edge (group_by same_reply replies))))))

-- The calls of pgmer2.
pub data BulkCall : Type 0 where
  mr_reset : BulkCall
  mr_sync : ℕ → BulkCall
  mr_bulk_load_edges : List BulkEdge → ℕ → BulkCall

-- The calls in their order, and the number of the edges.
unfoldable pub meritrank_bulk_init :
    (List BulkEdge → List BulkEdge) → Names → Lake → List Subscribe → ℕ → List BulkCall × ℕ
meritrank_bulk_init order names lake subs timeout_msec =
    let edges = order (bulk_edges names lake.posts lake.comments subs) in
    (
      mr_reset ∷ mr_sync 1000 ∷ mr_bulk_load_edges edges timeout_msec ∷ mr_sync 1000 ∷ [],
      length edges,
    )

-- The loop over subscribe of meritrank_init.
unfoldable pub init_subscribes : List Subscribe → List Call → List Call
init_subscribes [] calls = calls
init_subscribes (row ∷ rest) calls = init_subscribes rest (notify_put row calls)

-- meritrank_init on an empty MeritRank.
abbrev pub full_init : Names → Lake → List Subscribe → List Call
full_init names lake subs = meritrank_init names lake (init_subscribes subs [])
