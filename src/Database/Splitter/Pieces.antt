-- ===== src/Database/Splitter/Pieces.antt =====
-- The statements of the splitter, as pieces of the text (meritmolt/database.py).
use meritmolt.Prelude.{
  ℕ, zero, suc, ◌≤◌, ◌≡◌, refl, sym, ap, ◌∙◌, Bool, List, [], ◌∷◌, ◌++◌, length, length-append,
  if◌then◌else◌, arith,
}
use meritmolt.Text.{Text, drop_prefix, strip, is_empty}
use meritmolt.Database.Splitter.{
  Mode, plain, Turn, keep, boundary, turn, add_statement, split_from, split_sql_statements,
}
use meritmolt.Database.Splitter.Scan.{ModeOk, Consumes, turn-Consumes}

-- The pieces joined by semicolons.
abbrev pub join_rest : List Text → Text
join_rest [] = []
join_rest (piece ∷ pieces) = 59 ∷ piece ++ join_rest pieces

abbrev pub join_pieces : List Text → Text
join_pieces [] = []
join_pieces (piece ∷ pieces) = piece ++ join_rest pieces

-- The statements that a list of pieces has: stripped, without those that are then empty.
abbrev pub statements_of : List Text → List Text
statements_of [] = []
statements_of (piece ∷ pieces) =
    let rest = statements_of pieces in
    let stmt = strip piece in if is_empty stmt then rest else stmt ∷ rest

pub append_assoc : (a b c : Text) → (a ++ b) ++ c ≡ a ++ (b ++ c)
append_assoc [] b c = refl
append_assoc (x ∷ a) b c = ap (λ r. x ∷ r) (append_assoc a b c)

module _ (is_alnum : ℕ → Bool) where
  -- How the text from a mode and a buffer is cut.
  abbrev Cut : ℕ → Mode → Text → Text → Type 0
  Cut fuel mode buf sql =
      (first : Text) × (more : List Text) × (join_pieces (first ∷ more) ≡ buf ++ sql)
      × (split_from is_alnum fuel mode buf sql ≡ statements_of (first ∷ more))

  Cut-turn :
      (fuel : ℕ) (mode : Mode) (buf : Text) (ch : ℕ) (rest : Text) (t : Turn)
      → turn is_alnum mode ch rest ≡ t
      → Consumes ch rest t
      → length rest ≤ fuel
      → ((after : Mode) (buf' left : Text)
          → length left ≤ fuel
          → ModeOk after
          → Cut fuel after buf' left)
      → Cut (suc fuel) mode buf (ch ∷ rest)
  unfolding split_from
  Cut-turn fuel mode buf ch rest (keep chars after) e (whole, some_chars, ok) enough ih =
      let left : Text = drop_prefix chars (ch ∷ rest) in
      let shorter : length left ≤ fuel =
        omega (arith, length-append chars left, ap (λ s. length s) whole) in
      let (first, more, joined, cut) = ih after (buf ++ chars) left shorter ok in
      (
        first,
        more,
        joined ∙ append_assoc buf chars left ∙ ap (λ r. buf ++ r) whole,
        rw (split_from, e) cut,
      )
  Cut-turn fuel mode buf ch rest boundary e semicolon enough ih =
      let (first, more, joined, cut) = ih plain [] rest enough tt in
      (
        buf,
        first ∷ more,
        ap (λ r. buf ++ r) (ap (λ r. 59 ∷ r) joined ∙ ap (λ c. c ∷ rest) (sym semicolon)),
        rw (split_from, e) (ap (λ r. add_statement is_alnum buf r) cut),
      )

  Cut-all :
      (fuel : ℕ) (mode : Mode) (buf sql : Text)
      → length sql ≤ fuel
      → ModeOk mode
      → Cut fuel mode buf sql
  unfolding split_from
  Cut-all fuel mode buf [] enough ok = (buf, [], refl, refl)
  Cut-all zero mode buf (ch ∷ rest) enough ok = absurd (omega arith)
  Cut-all (suc fuel) mode buf (ch ∷ rest) enough ok =
      Cut-turn fuel mode buf ch rest (turn is_alnum mode ch rest) refl
        (turn-Consumes is_alnum mode ch rest ok) (omega (arith, enough))
        (λ after buf' left e k. Cut-all fuel after buf' left e k)

  -- The splitter loses nothing: the text is cut at semicolons into pieces, and the statements are
  -- those pieces, stripped, without those that are empty. As many turns as the text has characters
  -- are enough.
  pub split-pieces :
      (sql : Text)
      → (pieces : List Text) × (join_pieces pieces ≡ sql)
        × (split_sql_statements is_alnum sql ≡ statements_of pieces)
  unfolding split_sql_statements
  split-pieces sql =
      let (first, more, joined, cut) = Cut-all (length sql) plain [] sql (omega arith) tt in
      (first ∷ more, joined, cut)
