-- ===== src/Prelude/Member.antt =====
-- Membership in appended and filtered lists.
use mathlib.Core.Path.{◌≡◌, refl}
use mathlib.Core.Logic.{◌⊎◌, inl, inr}
use mathlib.Core.Bool.{Bool, true}
use mathlib.Core.List.{List, [], ◌∷◌, ◌++◌}
use native.Mathlib.Omega.{arith}
use meritmolt.Prelude.Tests.{Bool-cases}
use mathlib.Core.Option.{none, some}
use meritmolt.Prelude.Lists.{All, Among, All-Among, keep_if, find_if}
use meritmolt.Prelude.Keep.{All-keep_if, keep_if_passes}
use meritmolt.Prelude.Any.{any_of}

module _ {A : Type 0} where
  pub All-from {κ} : (P : A → Type κ) (xs : List A) → ((x : A) → Among x xs → P x) → All P xs
  All-from P [] h = tt
  All-from P (x ∷ xs) h = (h x (inl refl), All-from P xs (λ y m. h y (inr m)))

  pub Among-append : (x : A) (xs ys : List A) → Among x (xs ++ ys) → Among x xs ⊎ Among x ys
  Among-append x [] ys m = inr m
  Among-append x (y ∷ xs) ys (inl e) = inl (inl e)
  Among-append x (y ∷ xs) ys (inr m) = elim (Among-append x xs ys m) [
    | inl a ↦ inl (inr a)
    | inr b ↦ inr b
  ]

  pub Among-left : (x : A) (xs ys : List A) → Among x xs → Among x (xs ++ ys)
  Among-left x (y ∷ xs) ys (inl e) = inl e
  Among-left x (y ∷ xs) ys (inr m) = inr (Among-left x xs ys m)
  Among-left x [] ys m = absurd m

  pub Among-right : (x : A) (xs ys : List A) → Among x ys → Among x (xs ++ ys)
  Among-right x [] ys m = m
  Among-right x (y ∷ xs) ys m = inr (Among-right x xs ys m)

  pub Among-keep_if :
      (p : A → Bool) (xs : List A) (x : A) → Among x (keep_if p xs) → Among x xs × (p x ≡ true)
  Among-keep_if p xs x m = (
    All-Among (λ y. Among y xs) (keep_if p xs) x
        (All-keep_if (λ y. Among y xs) p xs (All-from (λ y. Among y xs) xs (λ y a. a))) m,
    All-Among (λ y. p y ≡ true) (keep_if p xs) x (keep_if_passes p xs) m,
  )

  pub keep_if-Among :
      (p : A → Bool) (xs : List A) (x : A) → Among x xs → p x ≡ true → Among x (keep_if p xs)
  keep_if-Among p [] x m h = absurd m
  keep_if-Among p (y ∷ xs) x (inl e) h = rw (← e, h) (inl refl)
  keep_if-Among p (y ∷ xs) x (inr m) h = elim (Bool-cases (p y)) [
    | inl t ↦ rw t (inr (keep_if-Among p xs x m h))
    | inr f ↦ rw f (keep_if-Among p xs x m h)
  ]

  pub any_of-Among :
      (p : A → Bool) (xs : List A) (x : A) → Among x xs → p x ≡ true → any_of p xs ≡ true
  any_of-Among p [] x m h = absurd m
  any_of-Among p (y ∷ xs) x (inl e) h = rw (← e, h) refl
  any_of-Among p (y ∷ xs) x (inr m) h = rw (any_of-Among p xs x m h) (ground arith)

  pub any_of_found :
      (p : A → Bool) (xs : List A) → any_of p xs ≡ true → (x : A) × Among x xs × (p x ≡ true)
  any_of_found p [] h = absurd (cc)
  any_of_found p (y ∷ xs) h = elim (Bool-cases (p y)) [
    | inl t ↦ (y, inl refl, t)
    | inr f ↦ let (x, m, t) = any_of_found p xs (rw f at h) in (x, inr m, t)
  ]

  -- A search that finds nothing has nothing to find.
  pub find_if_missed :
      (p : A → Bool) (xs : List A) (x : A) → find_if p xs ≡ none → Among x xs → p x ≡ true → ⊥
  find_if_missed p [] x n m h = m
  find_if_missed p (y ∷ xs) x n (inl e) h =
      let t : p y ≡ true = rw (← e) h in let z : some y ≡ none = rw t at n in absurd (cc)
  find_if_missed p (y ∷ xs) x n (inr m) h = elim (Bool-cases (p y)) [
    | inl t ↦ let z : some y ≡ none = rw t at n in absurd (cc)
    | inr f ↦ find_if_missed p xs x (rw f at n) m h
  ]
