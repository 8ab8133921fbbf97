-- ===== src/Prelude/Any.antt =====
-- Whether an entry passes a test, and what follows where none does.
use mathlib.Core.Path.{◌≡◌, refl}
use mathlib.Core.Bool.{Bool, true, false, ◌||◌, ◌&&◌}
use mathlib.Core.Option.{none, some}
use mathlib.Core.List.{List, [], ◌∷◌, ◌++◌}
use native.Mathlib.Omega.{arith}
use meritmolt.Prelude.Tests.{if◌then◌else◌}
use meritmolt.Prelude.Lists.{All, count_if, find_if, find_if-Among, find_if-append_none, All-Among}

pub or_false : (p q : Bool) → (p || q) ≡ false → (p ≡ false) × (q ≡ false)
or_false true q h = absurd (cc)
or_false false q h = (refl, h)

pub and_parts : (p q : Bool) → (p && q) ≡ true → (p ≡ true) × (q ≡ true)
and_parts true q h = (refl, h)
and_parts false q h = absurd (cc)

-- Two tests in turn that lead to the same.
pub if_or {ℓ} :
    {A : Type ℓ} (p q : Bool) (x y : A)
    → (if q then x else if p then x else y) ≡ (if p || q then x else y)
if_or true true x y = refl
if_or true false x y = refl
if_or false true x y = refl
if_or false false x y = refl

module _ {A : Type 0} where
  abbrev pub any_of : (A → Bool) → List A → Bool
  any_of p [] = false
  any_of p (x ∷ xs) = p x || any_of p xs

  pub any_of-false : (p : A → Bool) (xs : List A) → any_of p xs ≡ false → All (λ x. p x ≡ false) xs
  any_of-false p [] h = tt
  any_of-false p (x ∷ xs) h =
      let (a, b) = or_false (p x) (any_of p xs) h in (a, any_of-false p xs b)

  pub count_if-zero : (p : A → Bool) (xs : List A) → All (λ x. p x ≡ false) xs → count_if p xs ≡ 0
  count_if-zero p [] h = refl
  count_if-zero p (x ∷ xs) h = rw h.0 (count_if-zero p xs h.1)

  -- What holds of every entry holds of one that is found.
  pub found_All {κ} :
      (P : A → Type κ) (p : A → Bool) (xs : List A) (x : A) → find_if p xs ≡ some x → All P xs → P x
  found_All P p xs x e h = All-Among P xs x h (find_if-Among p xs x e)

  pub All-zip {κ μ ν} :
      (P : A → Type κ) (Q : A → Type μ) (R : A → Type ν) (xs : List A)
      → ((x : A) → P x → Q x → R x)
      → All P xs
      → All Q xs
      → All R xs
  All-zip P Q R [] k h l = tt
  All-zip P Q R (x ∷ xs) k h l = (k x h.0 l.0, All-zip P Q R xs k h.1 l.1)

  pub find_if-snoc :
      (p : A → Bool) (xs : List A) (y : A)
      → find_if p xs ≡ none
      → find_if p (xs ++ y ∷ []) ≡ (if p y then some y else none)
  find_if-snoc p xs y h = find_if-append_none p xs (y ∷ []) h

  pub count_if-snoc_false :
      (p : A → Bool) (xs : List A) (y : A) → p y ≡ false → count_if p (xs ++ y ∷ []) ≡ count_if p xs
  count_if-snoc_false p [] y h = rw h refl
  count_if-snoc_false p (x ∷ xs) y h = ground (arith, count_if-snoc_false p xs y h)
