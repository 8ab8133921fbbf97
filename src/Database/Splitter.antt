-- ===== src/Database/Splitter.antt =====
-- _split_sql_statements (meritmolt/database.py).
pub mod Scan
pub mod Pieces
pub mod Roundtrip
use mathlib.Core.Option
use meritmolt.Prelude.{
  ℕ, zero, suc, ◌+◌, Bool, true, false, ◌&&◌, ◌||◌, Option, none, some, List, [], ◌∷◌, ◌++◌, ◌==◌,
  length, if◌then◌else◌,
}
use meritmolt.Text.{Text, has_prefix, drop_prefix, strip, is_empty}

-- The state of the loop: at most one of the source's four flags and its dollar_tag is set.
pub data Mode : Type 0 where
  plain in_single in_double in_line_comment in_block_comment : Mode
  dollar : Text → Mode

-- What one turn of the loop does: characters go to the buffer, or a `;` ends the statement.
pub data Turn : Type 0 where
  keep : (chars : Text) → Mode → Turn
  boundary : Turn

abbrev pub next_is : ℕ → Text → Bool
next_is c [] = false
next_is c (d ∷ rest) = d == c

-- A character and, where it is doubled or ends a comment, the next one too.
abbrev pub single_turn : ℕ → Text → Turn
single_turn ch rest =
    if ch == 39
    then (if next_is 39 rest then keep (ch ∷ 39 ∷ []) in_single else keep (ch ∷ []) plain)
    else keep (ch ∷ []) in_single

abbrev pub double_turn : ℕ → Text → Turn
double_turn ch rest =
    if ch == 34
    then (if next_is 34 rest then keep (ch ∷ 34 ∷ []) in_double else keep (ch ∷ []) plain)
    else keep (ch ∷ []) in_double

abbrev pub line_turn : ℕ → Turn
line_turn ch = if ch == 10 then keep (ch ∷ []) plain else keep (ch ∷ []) in_line_comment

abbrev pub block_turn : ℕ → Text → Turn
block_turn ch rest =
    if (ch == 42) && next_is 47 rest
    then keep (ch ∷ 47 ∷ []) plain
    else keep (ch ∷ []) in_block_comment

abbrev pub dollar_turn : Text → ℕ → Text → Turn
dollar_turn tag ch rest =
    if (ch == 36) && has_prefix tag (ch ∷ rest) then keep tag plain else keep (ch ∷ []) (dollar tag)

module _ (is_alnum : ℕ → Bool) where
  -- The characters up to a `$`, if they are all of a tag: `sql[i + 1 : j + 1]`.
  unfoldable pub tag_rest : Text → Option Text
  tag_rest [] = none
  tag_rest (c ∷ rest) =
      let more = tag_rest rest in
      if is_alnum c || (c == 95)
      then Option.map (λ tag. c ∷ tag) more
      else if c == 36
      then some (c ∷ [])
      else none

  abbrev pub after_dollar : ℕ → Option Text → Turn
  after_dollar ch none = keep (ch ∷ []) plain
  after_dollar ch (some tag) = keep (ch ∷ tag) (dollar (ch ∷ tag))

  -- Outside all quotes and comments.
  unfoldable pub plain_turn : ℕ → Text → Turn
  unfolding tag_rest
  plain_turn ch rest =
      if (ch == 45) && next_is 45 rest
      then keep (ch ∷ 45 ∷ []) in_line_comment
      else if (ch == 47) && next_is 42 rest
      then keep (ch ∷ 42 ∷ []) in_block_comment
      else if ch == 39
      then keep (ch ∷ []) in_single
      else if ch == 34
      then keep (ch ∷ []) in_double
      else if ch == 36
      then after_dollar ch (tag_rest rest)
      else if ch == 59
      then boundary
      else keep (ch ∷ []) plain

  unfoldable pub turn : Mode → ℕ → Text → Turn
  turn plain ch rest = plain_turn ch rest
  turn in_single ch rest = single_turn ch rest
  turn in_double ch rest = double_turn ch rest
  turn in_line_comment ch rest = line_turn ch
  turn in_block_comment ch rest = block_turn ch rest
  turn (dollar tag) ch rest = dollar_turn tag ch rest

  -- `stmt = "".join(buf).strip()`, and the statement is kept if it is not empty.
  abbrev pub add_statement : Text → List Text → List Text
  add_statement buf rest = let stmt = strip buf in if is_empty stmt then rest else stmt ∷ rest

  -- The loop, from a mode, a buffer and what is left of the text; each turn takes one unit of fuel.
  unfoldable pub split_from : ℕ → Mode → Text → Text → List Text
  split_from fuel mode buf [] = add_statement buf []
  split_from zero mode buf (ch ∷ rest) = add_statement buf []
  split_from (suc fuel) mode buf (ch ∷ rest) = elim (turn mode ch rest) [
    | keep chars after ↦ split_from fuel after (buf ++ chars) (drop_prefix chars (ch ∷ rest))
    | boundary ↦ add_statement buf (split_from fuel plain [] rest)
  ]

  unfoldable pub split_sql_statements : Text → List Text
  split_sql_statements sql = split_from (length sql) plain [] sql
