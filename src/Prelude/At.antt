-- ===== src/Prelude/At.antt =====
-- Lists by position: reading and replacing the entry at an index.
use Prim.Native.Nat.{ℕ, zero, suc, ◌+◌}
use mathlib.Core.Path.{◌≡◌}
use mathlib.Core.List.{List, [], ◌∷◌}
use mathlib.Core.Bool.{Bool}
use mathlib.Core.Option.{Option, none, some}
use native.Mathlib.Omega.{arith}
use meritmolt.Prelude.Tests.{if◌then◌else◌}
use meritmolt.Prelude.Lists.{count_if}

abbrev pub one_if : Bool → ℕ
one_if b = if b then 1 else 0

module _ {ℓ} {A : Type ℓ} where
  abbrev pub get_at : ℕ → List A → Option A
  get_at n [] = none
  get_at zero (x ∷ xs) = some x
  get_at (suc n) (x ∷ xs) = get_at n xs

  abbrev pub set_at : ℕ → A → List A → List A
  set_at n y [] = []
  set_at zero y (x ∷ xs) = y ∷ xs
  set_at (suc n) y (x ∷ xs) = x ∷ set_at n y xs

  -- A count after a replacement: one less for the old entry, one more for the new one.
  pub count_if-set_at :
      (p : A → Bool) (n : ℕ) (x y : A) (xs : List A)
      → get_at n xs ≡ some x
      → count_if p (set_at n y xs) + one_if (p x) ≡ count_if p xs + one_if (p y)
  count_if-set_at p n x y [] h = absurd (cc)
  count_if-set_at p zero x y (z ∷ xs) h = ground arith
  count_if-set_at p (suc n) x y (z ∷ xs) h = ground (arith, count_if-set_at p n x y xs h)
