-- ===== src/Text.antt =====
-- Python's text and bytes as lists of code points, with the methods that the code calls on them.
use Prim.Native.Char.{code}
use Prim.Native.String.{String}
use mathlib.Core.Path.{ap₂}
use meritmolt.Prelude.{
  ℕ, ◌+◌, ◌≡◌, refl, arith, Bool-cases, ==_iff, inl, inr, Bool, true, false, not, ◌&&◌, ◌||◌, List,
  [], ◌∷◌, leb, ◌==◌, if◌then◌else◌,
}

abbrev pub Text : Type 0
Text = List ℕ

abbrev pub Bytes : Type 0
Bytes = List ℕ

-- The code points of a literal.
abbrev pub codes : String → Text
codes String.[] = []
codes (String.◌∷◌ c s) = code c ∷ codes s

unfoldable pub same_text : Text → Text → Bool
same_text [] [] = true
same_text [] (d ∷ ds) = false
same_text (c ∷ cs) [] = false
same_text (c ∷ cs) (d ∷ ds) = (c == d) && same_text cs ds

-- `text.startswith(prefix)`, the prefix first.
unfoldable pub has_prefix : Text → Text → Bool
has_prefix [] cs = true
has_prefix (p ∷ ps) [] = false
has_prefix (p ∷ ps) (c ∷ cs) = (p == c) && has_prefix ps cs

-- `text[len(prefix):]`.
unfoldable pub drop_prefix : Text → Text → Text
drop_prefix [] cs = cs
drop_prefix (p ∷ ps) [] = []
drop_prefix (p ∷ ps) (c ∷ cs) = drop_prefix ps cs

-- `str.isspace` of one character.
unfoldable pub is_space : ℕ → Bool
is_space c =
    (leb 9 c && leb c 13)
    || (leb 28 c && leb c 32)
    || (c == 133)
    || (c == 160)
    || (c == 5760)
    || (leb 8192 c && leb c 8202)
    || (c == 8232)
    || (c == 8233)
    || (c == 8239)
    || (c == 8287)
    || (c == 12288)

unfoldable pub strip_left : Text → Text
strip_left [] = []
strip_left (c ∷ cs) = let rest = strip_left cs in if is_space c then rest else c ∷ cs

unfoldable pub is_blank : Text → Bool
is_blank [] = true
is_blank (c ∷ cs) = is_space c && is_blank cs

unfoldable pub strip_right : Text → Text
strip_right [] = []
strip_right (c ∷ cs) = let rest = strip_right cs in if is_blank (c ∷ cs) then [] else c ∷ rest

-- `text.strip()`.
unfoldable pub strip : Text → Text
unfolding is_space strip_left is_blank strip_right
strip cs = strip_right (strip_left cs)

-- `bytes.lower()`.
unfoldable pub lower_ascii : Text → Text
lower_ascii [] = []
lower_ascii (c ∷ cs) = (if leb 65 c && leb c 90 then c + 32 else c) ∷ lower_ascii cs

-- `str.lower()` of a text that was decoded from Latin-1.
unfoldable pub lower_latin : Text → Text
lower_latin [] = []
lower_latin (c ∷ cs) =
    (if (leb 65 c && leb c 90) || (leb 192 c && leb c 222 && not (c == 215)) then c + 32 else c)
    ∷ lower_latin cs

-- `text.split(",")[0]`.
unfoldable pub before_comma : Text → Text
before_comma [] = []
before_comma (c ∷ cs) = let rest = before_comma cs in if c == 44 then [] else c ∷ rest

abbrev pub is_empty : Text → Bool
is_empty [] = true
is_empty (c ∷ cs) = false

pub same_text_refl : (cs : Text) → same_text cs cs ≡ true
unfolding same_text
same_text_refl [] = refl
same_text_refl (c ∷ cs) = ground (arith, same_text_refl cs)

pub same_text→≡ : (cs ds : Text) → same_text cs ds ≡ true → cs ≡ ds
unfolding same_text
same_text→≡ [] [] h = refl
same_text→≡ [] (d ∷ ds) h = absurd (cc)
same_text→≡ (c ∷ cs) [] h = absurd (cc)
same_text→≡ (c ∷ cs) (d ∷ ds) h = elim (Bool-cases (c == d)) [
  | inl t ↦ ap₂ (λ x xs. x ∷ xs) ((==_iff c d).0 t) (same_text→≡ cs ds (rw t at h))
  | inr f ↦ absurd (let e : false ≡ true = rw f at h in cc)
]
