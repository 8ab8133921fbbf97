-- ===== src/Prelude/Lists.antt =====
-- Lists measured by native numbers, and the list functions that the components share.
use Prim.Native.Nat.{ℕ, suc, ◌+◌, ◌≤◌, ◌<◌}
use mathlib.Core.Path.{◌≡◌, refl, sym, ap, subst, ◌∙◌}
use mathlib.Core.Logic.{◌⊎◌, ◌≢◌, inl, inr}
use mathlib.Core.Option
use mathlib.Core.List.{List, [], ◌∷◌, ◌++◌}
use mathlib.Core.Bool.{Bool, true, false}
use mathlib.Core.Option.{Option, none, some}
use native.Mathlib.Omega.{arith}
use meritmolt.Prelude.Tests.{Bool-cases, is_none, if◌then◌else◌}

module _ {ℓ} {A : Type ℓ} where
  abbrev pub length : List A → ℕ
  length [] = 0
  length (x ∷ xs) = suc (length xs)

  -- How many entries pass a test.
  abbrev pub count_if : (A → Bool) → List A → ℕ
  count_if p [] = 0
  count_if p (x ∷ xs) = if p x then suc (count_if p xs) else count_if p xs

  -- The first entry that passes a test.
  abbrev pub find_if : (A → Bool) → List A → Option A
  find_if p [] = none
  find_if p (x ∷ xs) = if p x then some x else find_if p xs

  -- Rewrites every entry that passes a test: SQL's `UPDATE ... WHERE`.
  abbrev pub update_if : (A → Bool) → (A → A) → List A → List A
  update_if p f [] = []
  update_if p f (x ∷ xs) = (if p x then f x else x) ∷ update_if p f xs

  -- Keeps the entries that pass a test.
  abbrev pub keep_if : (A → Bool) → List A → List A
  keep_if p [] = []
  keep_if p (x ∷ xs) = if p x then x ∷ keep_if p xs else keep_if p xs

  -- A predicate at every entry.
  abbrev pub All {κ} : (A → Type κ) → List A → Type κ
  All P [] = Unit
  All P (x ∷ xs) = P x × All P xs

  pub length-append : (xs ys : List A) → length (xs ++ ys) ≡ length xs + length ys
  length-append [] ys = omega arith
  length-append (x ∷ xs) ys = omega (arith, length-append xs ys)

  pub length-update_if :
      (p : A → Bool) (f : A → A) (xs : List A) → length (update_if p f xs) ≡ length xs
  length-update_if p f [] = refl
  length-update_if p f (x ∷ xs) = omega (arith, length-update_if p f xs)

  pub count_if-append :
      (p : A → Bool) (xs ys : List A) → count_if p (xs ++ ys) ≡ count_if p xs + count_if p ys
  count_if-append p [] ys = omega arith
  count_if-append p (x ∷ xs) ys = ground (arith, count_if-append p xs ys)

  pub All-append {κ} : (P : A → Type κ) (xs ys : List A) → All P xs → All P ys → All P (xs ++ ys)
  All-append P [] ys h k = k
  All-append P (x ∷ xs) ys h k = (h.0, All-append P xs ys h.1 k)

  pub find_if-update_if :
      (p q : A → Bool) (f : A → A) (xs : List A)
      → ((x : A) → p (f x) ≡ p x)
      → find_if p (update_if q f xs) ≡ Option.map (λ x. if q x then f x else x) (find_if p xs)
  find_if-update_if p q f [] h = refl
  find_if-update_if p q f (x ∷ xs) h = elim (Bool-cases (q x)) [
    | inl t ↦ rw t (ground (arith, h x, find_if-update_if p q f xs h))
    | inr e ↦ rw e (ground (arith, find_if-update_if p q f xs h))
  ]

  pub find_if-append :
      (p : A → Bool) (xs ys : List A) (x : A)
      → find_if p xs ≡ some x
      → find_if p (xs ++ ys) ≡ some x
  find_if-append p [] ys x h = cc
  find_if-append p (y ∷ xs) ys x h = ground (arith, find_if-append p xs ys x)

  pub find_if-append_none :
      (p : A → Bool) (xs ys : List A) → find_if p xs ≡ none → find_if p (xs ++ ys) ≡ find_if p ys
  find_if-append_none p [] ys h = refl
  find_if-append_none p (y ∷ xs) ys h = ground (arith, find_if-append_none p xs ys)

  -- An entry that is found passes the test.
  pub find_if_passes : (p : A → Bool) (xs : List A) (x : A) → find_if p xs ≡ some x → p x ≡ true
  find_if_passes p [] x h = cc
  find_if_passes p (y ∷ xs) x h = ground (arith, find_if_passes p xs x)

  -- An update that leaves the test false leaves no entry that passes it.
  pub count_if-update_none :
      (p : A → Bool) (f : A → A) (xs : List A)
      → ((x : A) → p (f x) ≡ false)
      → count_if p (update_if p f xs) ≡ 0
  count_if-update_none p f [] h = refl
  count_if-update_none p f (x ∷ xs) h = ground (arith, h x, count_if-update_none p f xs h)

  -- An update that cannot make the test true cannot raise the count.
  pub count_if-update_le :
      (p q : A → Bool) (f : A → A) (xs : List A)
      → ((x : A) → p (f x) ≡ false)
      → count_if p (update_if q f xs) ≤ count_if p xs
  count_if-update_le p q f [] h = omega arith
  count_if-update_le p q f (x ∷ xs) h = ground (arith, h x, count_if-update_le p q f xs h)

  -- An update that does not change the test does not change the count.
  pub count_if-update_same :
      (p q : A → Bool) (f : A → A) (xs : List A)
      → ((x : A) → q x ≡ true → p (f x) ≡ p x)
      → count_if p (update_if q f xs) ≡ count_if p xs
  count_if-update_same p q f [] h = refl
  count_if-update_same p q f (x ∷ xs) h = ground (arith, h x, count_if-update_same p q f xs h)

  -- A search cannot miss an entry that passes its test.
  pub find_if_hit :
      (p q : A → Bool) (xs : List A) (x : A)
      → find_if q xs ≡ some x
      → p x ≡ true
      → is_none (find_if p xs) ≡ false
  find_if_hit p q [] x h t = absurd (cc)
  find_if_hit p q (y ∷ xs) x h t = elim (Bool-cases (p y)) [
    | inl e ↦ rw e refl
    | inr f ↦ rw f (find_if_hit p q xs x (ground (arith, h, t, f)) t)
  ]

  -- No entry passes the test of a search that finds nothing.
  pub find_if-none : (p : A → Bool) (xs : List A) → All (λ x. p x ≡ false) xs → find_if p xs ≡ none
  find_if-none p [] h = refl
  find_if-none p (x ∷ xs) h = rw h.0 (find_if-none p xs h.1)

module _ {A : Type 0} where
  -- Membership by recursion, which a proof can split on.
  abbrev pub Among : A → List A → Type 0
  Among a [] = ⊥
  Among a (x ∷ xs) = (a ≡ x) ⊎ Among a xs

  pub find_if_holds : (p : A → Bool) (xs : List A) (x : A) → find_if p xs ≡ some x → p x ≡ true
  find_if_holds p [] x h = absurd (cc)
  find_if_holds p (y ∷ xs) x h = elim (Bool-cases (p y)) [
    | inl t ↦ ground arith
    | inr f ↦ find_if_holds p xs x (ground arith)
  ]

  pub find_if-Among : (p : A → Bool) (xs : List A) (x : A) → find_if p xs ≡ some x → Among x xs
  find_if-Among p [] x h = absurd (cc)
  find_if-Among p (y ∷ xs) x h = elim (Bool-cases (p y)) [
    | inl t ↦ inl (ground arith)
    | inr f ↦ inr (find_if-Among p xs x (ground arith))
  ]

  -- Striking out an entry that passed lowers the count.
  pub count_if-update_lt :
      (p q : A → Bool) (f : A → A) (x : A) (xs : List A)
      → ((y : A) → p (f y) ≡ false)
      → Among x xs
      → p x ≡ true
      → q x ≡ true
      → count_if p (update_if q f xs) < count_if p xs
  count_if-update_lt p q f x [] h m px qx = absurd m
  count_if-update_lt p q f x (y ∷ xs) h (inl e) px qx =
      rw (← e, qx, px, h x) (omega (arith, count_if-update_le p q f xs h))
  count_if-update_lt p q f x (y ∷ xs) h (inr m) px qx =
      ground (arith, h y, count_if-update_lt p q f x xs h m px qx)

  pub All-Among {κ} : (P : A → Type κ) (xs : List A) (x : A) → All P xs → Among x xs → P x
  All-Among P [] x h m = absurd m
  All-Among P (y ∷ xs) x h (inl e) = subst P (sym e) h.0
  All-Among P (y ∷ xs) x h (inr m) = All-Among P xs x h.1 m

  -- An update that no entry asks for changes nothing.
  pub update_if_nowhere :
      (q : A → Bool) (f : A → A) (xs : List A) → All (λ x. q x ≡ false) xs → update_if q f xs ≡ xs
  update_if_nowhere q f [] h = refl
  update_if_nowhere q f (x ∷ xs) h = rw h.0 (ap (λ r. x ∷ r) (update_if_nowhere q f xs h.1))

  pub All-update {κ} :
      (P : A → Type κ) (q : A → Bool) (f : A → A) (xs : List A)
      → ((x : A) → P x → P (f x))
      → All P xs
      → All P (update_if q f xs)
  All-update P q f [] k h = tt
  All-update P q f (x ∷ xs) k h = (if_keeps (q x), All-update P q f xs k h.1)
    where
      if_keeps : (b : Bool) → P (if b then f x else x)
      if_keeps true = k x h.0
      if_keeps false = h.0

  pub All-map {κ μ} :
      (P : A → Type κ) (Q : A → Type μ) (xs : List A) → ((x : A) → P x → Q x) → All P xs → All Q xs
  All-map P Q [] k h = tt
  All-map P Q (x ∷ xs) k h = (k x h.0, All-map P Q xs k h.1)

module _ {A B : Type 0} (key : A → B) where
  -- No two entries have the same key: a UNIQUE constraint.
  abbrev pub Distinct : List A → Type 0
  Distinct [] = Unit
  Distinct (x ∷ xs) = All (λ y. key y ≢ key x) xs × Distinct xs

  pub Distinct-update :
      (q : A → Bool) (f : A → A) (xs : List A)
      → ((x : A) → key (f x) ≡ key x)
      → Distinct xs
      → Distinct (update_if q f xs)
  Distinct-update q f [] k h = tt
  Distinct-update q f (x ∷ xs) k h = (head_differs, Distinct-update q f xs k h.1)
    where
      same : (b : Bool) → key (if b then f x else x) ≡ key x
      same true = k x
      same false = refl

      head_differs : All (λ y. key y ≢ key (if q x then f x else x)) (update_if q f xs)
      head_differs =
          All-update (λ y. key y ≢ key (if q x then f x else x)) q f xs
            (λ y differs e. differs (sym (k y) ∙ e))
            (All-map (λ y. key y ≢ key x) _ xs (λ y differs e. differs (e ∙ same (q x))) h.0)

  pub Distinct-append :
      (xs : List A) (x : A) → Distinct xs → All (λ y. key y ≢ key x) xs → Distinct (xs ++ x ∷ [])
  Distinct-append [] x h k = (tt, tt)
  Distinct-append (y ∷ xs) x h k = (
    All-append (λ z. key z ≢ key y) xs (x ∷ []) h.0 (λ e. k.0 (sym e), tt),
    Distinct-append xs x h.1 k.1,
  )

  -- A search by key that finds nothing.
  pub find_if_absent :
      (same : B → B → Bool) (b : B) (xs : List A)
      → ((c : B) → c ≡ b → same c b ≡ true)
      → find_if (λ x. same (key x) b) xs ≡ none
      → All (λ y. key y ≢ b) xs
  find_if_absent same b [] k h = tt
  find_if_absent same b (x ∷ xs) k h = elim (Bool-cases (same (key x) b)) [
    | inl t ↦ absurd (let f : some x ≡ none = rw t at h in cc)
    | inr f ↦ (
      λ e. absurd (let g : true ≡ false = sym (k (key x) e) ∙ f in cc),
      find_if_absent same b xs k (rw f at h),
    )
  ]
