-- ===== src/Database/Splitter/Scan.antt =====
-- One turn of the splitter's loop consumes what it keeps (meritmolt/database.py).
use meritmolt.Prelude.{
  ℕ, ◌<◌, ◌≡◌, refl, sym, ap, inl, inr, Bool, true, false, ◌&&◌, ◌||◌, Option, none, some, [], ◌∷◌,
  ◌++◌, ◌==◌, ==_iff, length, if◌then◌else◌, Bool-cases, arith,
}
use mathlib.Core.Option
use meritmolt.Text.{Text, has_prefix, drop_prefix}
use meritmolt.Database.Splitter.{
  Mode, plain, in_single, in_double, in_line_comment, in_block_comment, dollar, Turn, keep,
  boundary, next_is, tag_rest, after_dollar, plain_turn, turn,
}

-- The tag of a dollar quote is never empty.
abbrev pub ModeOk : Mode → Type 0
ModeOk plain = Unit
ModeOk in_single = Unit
ModeOk in_double = Unit
ModeOk in_line_comment = Unit
ModeOk in_block_comment = Unit
ModeOk (dollar tag) = 0 < length tag

-- What a turn keeps is where the text goes on, and is not empty; a boundary is a `;`.
abbrev pub Consumes : ℕ → Text → Turn → Type 0
Consumes ch rest (keep chars mode) =
    (chars ++ drop_prefix chars (ch ∷ rest) ≡ ch ∷ rest) × (0 < length chars) × ModeOk mode
Consumes ch rest boundary = ch ≡ 59

if_Consumes :
    (ch : ℕ) (rest : Text) (b : Bool) (t e : Turn)
    → (b ≡ true → Consumes ch rest t)
    → (b ≡ false → Consumes ch rest e)
    → Consumes ch rest (if b then t else e)
if_Consumes ch rest true t e h k = h refl
if_Consumes ch rest false t e h k = k refl

keep_one :
    (ch : ℕ) (rest : Text) (mode : Mode) → ModeOk mode → Consumes ch rest (keep (ch ∷ []) mode)
unfolding drop_prefix
keep_one ch rest mode ok = (refl, omega arith, ok)

keep_two :
    (ch c : ℕ) (rest : Text) (mode : Mode)
    → next_is c rest ≡ true
    → ModeOk mode
    → Consumes ch rest (keep (ch ∷ c ∷ []) mode)
unfolding drop_prefix
keep_two ch c [] mode h ok = absurd (cc)
keep_two ch c (d ∷ rest) mode h ok =
    (ap (λ x. ch ∷ x ∷ rest) (sym ((==_iff d c).0 h)), omega arith, ok)

has_prefix_drop : (p cs : Text) → has_prefix p cs ≡ true → p ++ drop_prefix p cs ≡ cs
unfolding has_prefix drop_prefix
has_prefix_drop [] cs h = refl
has_prefix_drop (p ∷ ps) [] h = absurd (cc)
has_prefix_drop (p ∷ ps) (c ∷ cs) h = elim (Bool-cases (p == c)) [
  | inl t ↦ rw ((==_iff p c).0 t) (ap (λ r. c ∷ r) (has_prefix_drop ps cs (rw t at h)))
  | inr f ↦ absurd (let e : false ≡ true = rw f at h in cc)
]

and_last : (a b : Bool) → (a && b) ≡ true → b ≡ true
and_last true b e = e
and_last false b e = absurd (cc)

module _ (is_alnum : ℕ → Bool) where
  TagOk : Option Text → Text → Type 0
  TagOk none cs = Unit
  TagOk (some tag) cs = tag ++ drop_prefix tag cs ≡ cs

  extend_TagOk :
      (c : ℕ) (cs : Text) (o : Option Text)
      → TagOk o cs
      → TagOk (Option.map (λ tag. c ∷ tag) o) (c ∷ cs)
  unfolding TagOk drop_prefix
  extend_TagOk c cs none h = tt
  extend_TagOk c cs (some tag) h = ap (λ r. c ∷ r) h

  tag_rest-TagOk : (cs : Text) → TagOk (tag_rest is_alnum cs) cs
  unfolding TagOk tag_rest drop_prefix
  tag_rest-TagOk [] = tt
  tag_rest-TagOk (c ∷ cs) = elim (Bool-cases (is_alnum c || (c == 95))) [
    | inl t ↦ rw t (extend_TagOk c cs (tag_rest is_alnum cs) (tag_rest-TagOk cs))
    | inr f ↦ elim (Bool-cases (c == 36)) [ inl u ↦ rw (f, u) refl | inr g ↦ rw (f, g) tt ]
  ]

  after_dollar-Consumes :
      (ch : ℕ) (rest : Text) (o : Option Text)
      → TagOk o rest
      → Consumes ch rest (after_dollar is_alnum ch o)
  unfolding TagOk drop_prefix
  after_dollar-Consumes ch rest none h = (refl, omega arith, tt)
  after_dollar-Consumes ch rest (some tag) h = (ap (λ r. ch ∷ r) h, omega arith, omega arith)

  plain_Consumes : (ch : ℕ) (rest : Text) → Consumes ch rest (plain_turn is_alnum ch rest)
  unfolding plain_turn
  plain_Consumes ch rest =
      if_Consumes ch rest ((ch == 45) && next_is 45 rest) _ _
        (λ t. keep_two ch 45 rest in_line_comment (and_last _ _ t) tt)
        (λ _.
          if_Consumes ch rest ((ch == 47) && next_is 42 rest) _ _
            (λ t. keep_two ch 42 rest in_block_comment (and_last _ _ t) tt)
            (λ _.
              if_Consumes ch rest (ch == 39) _ _ (λ _. keep_one ch rest in_single tt)
                (λ _.
                  if_Consumes ch rest (ch == 34) _ _ (λ _. keep_one ch rest in_double tt)
                    (λ _.
                      if_Consumes ch rest (ch == 36) _ _
                        (λ _.
                          after_dollar-Consumes ch rest (tag_rest is_alnum rest)
                            (tag_rest-TagOk rest))
                        (λ _.
                          if_Consumes ch rest (ch == 59) _ _ (λ t. (==_iff ch 59).0 t)
                            (λ _. keep_one ch rest plain tt))))))

  -- In every mode.
  pub turn-Consumes :
      (mode : Mode) (ch : ℕ) (rest : Text)
      → ModeOk mode
      → Consumes ch rest (turn is_alnum mode ch rest)
  unfolding turn
  turn-Consumes plain ch rest ok = plain_Consumes ch rest
  turn-Consumes in_single ch rest ok =
      if_Consumes ch rest (ch == 39) _ _
        (λ _.
          if_Consumes ch rest (next_is 39 rest) _ _ (λ t. keep_two ch 39 rest in_single t tt)
            (λ _. keep_one ch rest plain tt))
        (λ _. keep_one ch rest in_single tt)
  turn-Consumes in_double ch rest ok =
      if_Consumes ch rest (ch == 34) _ _
        (λ _.
          if_Consumes ch rest (next_is 34 rest) _ _ (λ t. keep_two ch 34 rest in_double t tt)
            (λ _. keep_one ch rest plain tt))
        (λ _. keep_one ch rest in_double tt)
  turn-Consumes in_line_comment ch rest ok =
      if_Consumes ch rest (ch == 10) _ _ (λ _. keep_one ch rest plain tt)
        (λ _. keep_one ch rest in_line_comment tt)
  turn-Consumes in_block_comment ch rest ok =
      if_Consumes ch rest ((ch == 42) && next_is 47 rest) _ _
        (λ t. keep_two ch 47 rest plain (and_last _ _ t) tt)
        (λ _. keep_one ch rest in_block_comment tt)
  turn-Consumes (dollar tag) ch rest ok =
      if_Consumes ch rest ((ch == 36) && has_prefix tag (ch ∷ rest)) _ _
        (λ t. (has_prefix_drop tag (ch ∷ rest) (and_last _ _ t), ok, tt))
        (λ _. keep_one ch rest (dollar tag) ok)
