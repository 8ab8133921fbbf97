-- ===== src/Database/Splitter/Roundtrip.antt =====
-- Statements that are joined by semicolons and split again (meritmolt/database.py).
use meritmolt.Prelude.{
  ℕ, suc, ◌+◌, ◌≡◌, refl, sym, ap, ◌∙◌, Bool, true, false, not, ◌||◌, List, [], ◌∷◌, ◌++◌, ◌==◌,
  length, length-append, arith, All,
}
use mathlib.Core.Path.{ap₂}
use meritmolt.Text.{Text, drop_prefix, strip, is_empty}
use meritmolt.Database.Splitter.{
  plain, keep, turn, plain_turn, add_statement, split_from, split_sql_statements,
}
use meritmolt.Database.Splitter.Pieces.{join_rest, join_pieces, append_assoc}

-- A character that the splitter only copies.
abbrev pub is_ordinary : ℕ → Bool
is_ordinary c =
    not ((c == 45) || ((c == 47) || ((c == 39) || ((c == 34) || ((c == 36) || (c == 59))))))

abbrev pub Ordinary : Text → Type 0
Ordinary cs = All (λ c. is_ordinary c ≡ true) cs

-- A statement of ordinary characters, not empty, and without space at its ends.
abbrev pub Plain : Text → Type 0
Plain stmt = Ordinary stmt × (strip stmt ≡ stmt) × (is_empty stmt ≡ false)

not-true : (b : Bool) → not b ≡ true → b ≡ false
not-true true h = absurd (cc)
not-true false h = refl

or_false : (a b : Bool) → (a || b) ≡ false → (a ≡ false) × (b ≡ false)
or_false true b h = absurd (cc)
or_false false b h = (refl, h)

append_nil : (cs : Text) → cs ++ [] ≡ cs
append_nil [] = refl
append_nil (c ∷ cs) = ap (λ r. c ∷ r) (append_nil cs)

module _ (is_alnum : ℕ → Bool) where
  ordinary_turn :
      (ch : ℕ) (rest : Text)
      → is_ordinary ch ≡ true
      → turn is_alnum plain ch rest ≡ keep (ch ∷ []) plain
  unfolding turn plain_turn
  ordinary_turn ch rest h =
      let (a, h1) = or_false (ch == 45) _ (not-true _ h) in
      let (b, h2) = or_false (ch == 47) _ h1 in
      let (c, h3) = or_false (ch == 39) _ h2 in
      let (d, h4) = or_false (ch == 34) _ h3 in
      let (e, f) = or_false (ch == 36) (ch == 59) h4 in rw (a, b, c, d, e, f) refl

  copy_turn :
      (fuel : ℕ) (buf : Text) (ch : ℕ) (rest : Text)
      → turn is_alnum plain ch rest ≡ keep (ch ∷ []) plain
      → split_from is_alnum (suc fuel) plain buf (ch ∷ rest)
        ≡ split_from is_alnum fuel plain (buf ++ ch ∷ []) rest
  unfolding drop_prefix split_from
  copy_turn fuel buf ch rest e = rw (split_from, e) refl

  boundary_turn :
      (fuel : ℕ) (buf rest : Text)
      → split_from is_alnum (suc fuel) plain buf (59 ∷ rest)
        ≡ add_statement is_alnum buf (split_from is_alnum fuel plain [] rest)
  unfolding split_from turn plain_turn
  boundary_turn fuel buf rest = refl

  scan-Ordinary :
      (cs : Text) (fuel : ℕ) (buf rest : Text)
      → Ordinary cs
      → split_from is_alnum (length cs + fuel) plain buf (cs ++ rest)
        ≡ split_from is_alnum fuel plain (buf ++ cs) rest
  scan-Ordinary [] fuel buf rest h =
      ap₂ (λ n b. split_from is_alnum n plain b rest) (omega arith) (sym (append_nil buf))
  scan-Ordinary (ch ∷ cs) fuel buf rest h =
      ap (λ n. split_from is_alnum n plain buf (ch ∷ (cs ++ rest))) (omega arith)
      ∙ copy_turn (length cs + fuel) buf ch (cs ++ rest) (ordinary_turn ch (cs ++ rest) h.0)
      ∙ scan-Ordinary cs fuel (buf ++ ch ∷ []) rest h.1
      ∙ ap (λ b. split_from is_alnum fuel plain b rest) (append_assoc buf (ch ∷ []) cs)

  -- A plain statement with what comes after it.
  scan_statement :
      (stmt rest : Text) (stmts : List Text)
      → Plain stmt
      → ((buf : Text)
          → split_from is_alnum (length rest) plain buf rest ≡ add_statement is_alnum buf stmts)
      → split_from is_alnum (length (stmt ++ rest)) plain [] (stmt ++ rest) ≡ stmt ∷ stmts
  scan_statement stmt rest stmts (ordinary, stripped, some_chars) h =
      ap (λ n. split_from is_alnum n plain [] (stmt ++ rest)) (length-append stmt rest)
      ∙ scan-Ordinary stmt (length rest) [] rest ordinary
      ∙ h stmt
      ∙ rw (stripped, some_chars) refl

  split_rest :
      (stmts : List Text) (buf : Text)
      → All Plain stmts
      → split_from is_alnum (length (join_rest stmts)) plain buf (join_rest stmts)
        ≡ add_statement is_alnum buf stmts
  unfolding split_from
  split_rest [] buf h = refl
  split_rest (stmt ∷ stmts) buf (p, h) =
      boundary_turn (length (stmt ++ join_rest stmts)) buf (stmt ++ join_rest stmts)
      ∙ ap (λ r. add_statement is_alnum buf r)
          (scan_statement stmt (join_rest stmts) stmts p (λ b. split_rest stmts b h))

  -- Statements joined by semicolons are split into the same statements, when each is of characters
  -- other than quotes, `$`, `-`, `/` and `;`, is not empty, and has no space at its ends.
  pub split-join :
      (stmts : List Text)
      → All Plain stmts
      → split_sql_statements is_alnum (join_pieces stmts) ≡ stmts
  unfolding split_sql_statements split_from strip
  split-join [] h = refl
  split-join (stmt ∷ stmts) (p, h) =
      scan_statement stmt (join_rest stmts) stmts p (λ b. split_rest stmts b h)
