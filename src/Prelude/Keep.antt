-- ===== src/Prelude/Keep.antt =====
-- Lists that lose the entries that fail a test: SQL's `DELETE ... WHERE`, with its length and keys.
use Prim.Native.Nat.{◌≤◌, ◌<◌}
use mathlib.Core.Path.{◌≡◌, refl}
use mathlib.Core.Logic.{◌≢◌, inl, inr}
use mathlib.Core.List.{List, [], ◌∷◌}
use mathlib.Core.Bool.{Bool, true, false}
use mathlib.Core.Option.{some}
use native.Mathlib.Omega.{arith}
use meritmolt.Prelude.Tests.{Bool-cases}
use meritmolt.Prelude.Lists.{length, find_if, keep_if, update_if, All, Distinct, count_if}

module _ {ℓ} {A : Type ℓ} where
  pub length-keep_if : (p : A → Bool) (xs : List A) → length (keep_if p xs) ≤ length xs
  length-keep_if p [] = omega arith
  length-keep_if p (x ∷ xs) = ground (arith, length-keep_if p xs)

  -- Dropping an entry that is there makes the list shorter.
  pub length-keep_if_lt :
      (p q : A → Bool) (xs : List A) (x : A)
      → ((y : A) → q y ≡ true → p y ≡ false)
      → find_if q xs ≡ some x
      → length (keep_if p xs) < length xs
  length-keep_if_lt p q [] x h found = absurd (cc)
  length-keep_if_lt p q (y ∷ xs) x h found = elim (Bool-cases (q y)) [
    | inl t ↦ rw (h y t) (omega (arith, length-keep_if p xs))
    | inr f ↦ ground (arith, length-keep_if p xs, length-keep_if_lt p q xs x h (rw f at found))
  ]

  pub All-keep_if {κ} :
      (P : A → Type κ) (p : A → Bool) (xs : List A) → All P xs → All P (keep_if p xs)
  All-keep_if P p [] h = tt
  All-keep_if P p (x ∷ xs) h = elim (Bool-cases (p x)) [
    | inl t ↦ rw t (h.0, All-keep_if P p xs h.1)
    | inr f ↦ rw f (All-keep_if P p xs h.1)
  ]

  -- The entries that are kept pass the test.
  pub keep_if_passes : (p : A → Bool) (xs : List A) → All (λ x. p x ≡ true) (keep_if p xs)
  keep_if_passes p [] = tt
  keep_if_passes p (x ∷ xs) = elim (Bool-cases (p x)) [
    | inl t ↦ rw t (t, keep_if_passes p xs)
    | inr f ↦ rw f (keep_if_passes p xs)
  ]

  -- A search for entries that are all kept.
  pub find_if-keep_if :
      (q p : A → Bool) (xs : List A)
      → ((x : A) → q x ≡ true → p x ≡ true)
      → find_if q (keep_if p xs) ≡ find_if q xs
  find_if-keep_if q p [] h = refl
  find_if-keep_if q p (x ∷ xs) h = elim (Bool-cases (p x)) [
    | inl t ↦ rw t (ground (arith, find_if-keep_if q p xs h))
    | inr f ↦ rw f (ground (arith, h x, find_if-keep_if q p xs h))
  ]

  -- A predicate that the update of the chosen entries keeps.
  pub All-update_where {κ} :
      (P : A → Type κ) (q : A → Bool) (f : A → A) (xs : List A)
      → ((x : A) → q x ≡ true → P x → P (f x))
      → All P xs
      → All P (update_if q f xs)
  All-update_where P q f [] k h = tt
  All-update_where P q f (x ∷ xs) k h = elim (Bool-cases (q x)) [
    | inl t ↦ rw t (k x t h.0, All-update_where P q f xs k h.1)
    | inr e ↦ rw e (h.0, All-update_where P q f xs k h.1)
  ]

  pub count_if-keep_if_le :
      (q p : A → Bool) (xs : List A) → count_if q (keep_if p xs) ≤ count_if q xs
  count_if-keep_if_le q p [] = omega arith
  count_if-keep_if_le q p (x ∷ xs) = ground (arith, count_if-keep_if_le q p xs)

pub Distinct-keep_if :
    {A B : Type 0} (key : A → B) (p : A → Bool) (xs : List A)
    → Distinct key xs
    → Distinct key (keep_if p xs)
Distinct-keep_if key p [] h = tt
Distinct-keep_if key p (x ∷ xs) h = elim (Bool-cases (p x)) [
  | inl t ↦ rw t (All-keep_if (λ y. key y ≢ key x) p xs h.0, Distinct-keep_if key p xs h.1)
  | inr f ↦ rw f (Distinct-keep_if key p xs h.1)
]
