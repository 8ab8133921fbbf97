-- ===== src/Tests/Scores.antt =====
-- The rank endpoint of comments on a concrete database (meritmolt/rank/router.py).
use meritmolt.Prelude.{true, ℕ, ◌≡◌, refl, List, [], ◌∷◌, ltb, length, none, if◌then◌else◌}
use meritmolt.Text.{Text, same_text}
use meritmolt.Errors.{ok}
use meritmolt.Subscriptions.{mm_pgmer_prefix}
use meritmolt.MeritRank.{Comment}
use meritmolt.Scores.{
  Ranker, CommentRank, Db, get_ranked_comments, get_comment_ranking, get_scores, joined,
}

abbrev insert : CommentRank ℕ → List (CommentRank ℕ) → List (CommentRank ℕ)
insert x [] = x ∷ []
insert x (y ∷ ys) = if ltb y.src_score x.src_score then x ∷ y ∷ ys else y ∷ insert x ys

abbrev sort : List (CommentRank ℕ) → List (CommentRank ℕ)
sort [] = []
sort (x ∷ xs) = insert x (sort xs)

abbrev ranker : Ranker
ranker = record {
  Score = ℕ;
  higher = λ a b. ltb b a;
  mr_node_score =
      λ src dst board. record { src = src; dst = dst; src_score = length dst; dst_score = 1 } ∷ [];
  mr_mutual_scores = λ src board. [];
  mr_scores = λ src board q. [];
  order_scores = λ rows. rows;
  order_ranks = sort;
}

abbrev comment_of : Text → Text → Comment
comment_of i post_id = record {
  id = i;
  post_id = post_id;
  parent_id = none;
  author_id = 97 ∷ [];
  ticker = 0;
}

abbrev db : Db
db = record {
  agents = same_text (97 ∷ []);
  posts = record { id = 1 ∷ []; author_id = 97 ∷ []; submolt_id = none; ticker = 0 } ∷ [];
  comments =
      comment_of (2 ∷ []) (1 ∷ [])
      ∷ comment_of (3 ∷ 3 ∷ []) (1 ∷ [])
      ∷ comment_of (4 ∷ []) (9 ∷ [])
      ∷ [];
}

-- The longer id scores higher, and the comment on the other post is left out.
two_ranked :
    get_ranked_comments ranker true db (97 ∷ []) (1 ∷ []) [] 50 0
    ≡ ok (
        record { id = 3 ∷ 3 ∷ []; src_score = 3; dst_score = 1 }
        ∷ record { id = 2 ∷ []; src_score = 2; dst_score = 1 }
        ∷ [])
unfolding get_ranked_comments get_comment_ranking joined get_scores mm_pgmer_prefix same_text
two_ranked = refl

one_ranked :
    get_ranked_comments ranker true db (97 ∷ []) (1 ∷ []) [] 50 1
    ≡ ok (record { id = 2 ∷ []; src_score = 2; dst_score = 1 } ∷ [])
unfolding get_ranked_comments get_comment_ranking joined get_scores mm_pgmer_prefix same_text
one_ranked = refl
