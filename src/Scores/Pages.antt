-- ===== src/Scores/Pages.antt =====
-- What the rank endpoint of comments answers with (get_ranked_comments of meritmolt/rank/router.py).
use meritmolt.Prelude.{
  min, ◌++◌, count_if, ◌+◌, if◌then◌else◌, ℕ, ◌≤◌, ◌<◌, ◌≡◌, ◌⊎◌, Bool, true, false, none, List, [],
  ◌∷◌, length, All, Among, is_none, keep_if,
}
use meritmolt.Text.{Text, same_text}
use meritmolt.Errors.{Result, ok, err, http_exception}
use meritmolt.MeritRank.{Comments, Comment, find_post}
use meritmolt.Scores.{Ranker, CommentRank, Db, Ranks, ranks_of, is_on, joined, comment_get_scores}

module _ {A : Type 0} where
  -- The rows are those that follow the first `offset` of the whole: `limit` of them, or all that are
  -- left.
  abbrev pub IsSlice : ℕ → ℕ → List A → List A → Type 0
  IsSlice limit offset whole rows =
      (before : List A) × (after : List A) × (whole ≡ before ++ (rows ++ after))
      × (length before ≡ min offset (length whole))
      × (length rows ≤ limit)
      × ((after ≡ []) ⊎ (length rows ≡ limit))

  -- No later entry comes before an earlier one.
  abbrev pub Ordered : (A → A → Bool) → List A → Type 0
  Ordered before [] = Unit
  Ordered before (x ∷ xs) = All (λ y. before y x ≡ false) xs × Ordered before xs

module _ (mr : Ranker) where
  abbrev pub outranks : CommentRank mr.Score → CommentRank mr.Score → Bool
  outranks row other = mr.higher row.src_score other.src_score

  -- What PostgreSQL documents of ORDER BY src_score DESC: it gives the rows of the query, each as often
  -- as the query has it, and none of them after a lower one.
  pub record SortsRanks : Type 0 where
    pub descends : (rows : Ranks mr) → Ordered outranks (mr.order_ranks rows)
    pub no_more :
        (rows : Ranks mr) (row : CommentRank mr.Score)
        → Among row (mr.order_ranks rows)
        → Among row rows
    pub no_less :
        (rows : Ranks mr) (row : CommentRank mr.Score)
        → Among row rows
        → Among row (mr.order_ranks rows)
    pub as_often :
        (q : CommentRank mr.Score → Bool) (rows : Ranks mr)
        → count_if q (mr.order_ranks rows) ≡ count_if q rows

  -- The row is that of a comment on the post, with a score that pgmer2 gives the comment.
  abbrev pub IsRank : Db → Text → Text → Text → CommentRank mr.Score → Type 0
  IsRank db subject post_id board row =
      (c : Comment) × Among c db.comments
      × (c.post_id ≡ post_id)
      × Among row (ranks_of mr c.id (comment_get_scores mr c.id subject board))

  -- All scores of a comment on the post are among the rows.
  abbrev pub IsRanked : Text → Text → Text → Ranks mr → Comment → Type 0
  IsRanked subject post_id board rows c =
      (same_text c.post_id post_id ≡ false)
      ⊎ All (λ row. Among row rows) (ranks_of mr c.id (comment_get_scores mr c.id subject board))

  -- How many of the scores of the comments on the post satisfy a test.
  abbrev pub count_scores : (CommentRank mr.Score → Bool) → Text → Text → Text → Comments → ℕ
  count_scores q subject post_id board [] = 0
  count_scores q subject post_id board (c ∷ comments) =
      (if same_text c.post_id post_id
        then count_if q (ranks_of mr c.id (comment_get_scores mr c.id subject board))
        else 0)
      + count_scores q subject post_id board comments

  -- The whole ranking: all scores of the comments on the post, each once for each time that pgmer2
  -- gives it, and no others, the higher ones first.
  abbrev pub IsWhole : Db → Text → Text → Text → Ranks mr → Type 0
  IsWhole db subject post_id board rows =
      Ordered outranks rows
      × All (IsRank db subject post_id board) rows
      × All (IsRanked subject post_id board rows) db.comments
      × ((q : CommentRank mr.Score → Bool)
          → count_if q rows ≡ count_scores q subject post_id board db.comments)

  -- The outcome of a request, each with its condition.
  abbrev pub IsRanking : Bool → Db → Text → Text → Text → ℕ → ℕ → Result (Ranks mr) → Type 0
  IsRanking initialised db subject post_id board limit offset (ok rows) =
      (initialised ≡ true)
      × (1 ≤ limit)
      × (limit ≤ 200)
      × (db.agents subject ≡ true)
      × (is_none (find_post db.posts post_id) ≡ false)
      × ((whole : Ranks mr) × IsWhole db subject post_id board whole
          × IsSlice limit offset whole rows)
  IsRanking initialised db subject post_id board limit offset (err e) =
      ((e ≡ http_exception 503 "Database not initialized") × (initialised ≡ false))
      ⊎ ((e ≡ http_exception 422 "limit") × ((limit ≡ 0) ⊎ (200 < limit)))
      ⊎ ((e ≡ http_exception 404 "User not found") × (db.agents subject ≡ false))
      ⊎ ((e ≡ http_exception 404 "Post not found") × (find_post db.posts post_id ≡ none))

  module _ (db : Db) (subject post_id board : Text) where
    -- The rows of the query in their order, before LIMIT and OFFSET.
    abbrev whole_ranking : Ranks mr
    whole_ranking = mr.order_ranks (joined mr subject board (keep_if (is_on post_id) db.comments))
