-- ===== src/MeritRank/Bulk/Groups.antt =====
-- SELECT, WHERE and GROUP BY of meritrank_bulk_init (meritmolt/schema/ddl.py): which rows there are.
use meritmolt.Prelude.{
  ◌≡◌, refl, inl, inr, ℕ, suc, Bool, true, false, not, some, List, [], ◌∷◌, Among, Among-keep_if,
  keep_if-Among, keep_if, count_if, Bool-cases, arith, ap, sym, ◌∙◌,
}
use meritmolt.MeritRank.Nodes.{nonzero}
use meritmolt.MeritRank.Bulk.{select, group_by}

nonzero-suc : (n : ℕ) → nonzero (suc n) ≡ some (suc n)
nonzero-suc n = ground arith

module _ {A : Type 0} where
  -- A count over the rows of a WHERE that all counted rows pass.
  pub count_if-keep_if :
      (p q : A → Bool) (xs : List A)
      → ((x : A) → Among x xs → p x ≡ true → q x ≡ true)
      → count_if p (keep_if q xs) ≡ count_if p xs
  count_if-keep_if p q [] h = refl
  count_if-keep_if p q (x ∷ xs) h =
      let rest = count_if-keep_if p q xs (λ y m. h y (inr m)) in
      elim (Bool-cases (q x)) [
        | inl t ↦ rw (t, rest) refl
        | inr f ↦ elim (Bool-cases (p x)) [
          | inl u ↦ absurd (let e = h x (inl refl) u in let z : false ≡ true = sym f ∙ e in cc)
          | inr g ↦ rw (f, g, rest) refl
        ]
      ]

  -- A group that has a row is counted.
  pub nonzero-count_if :
      (p : A → Bool) (xs : List A) (x : A)
      → Among x xs
      → p x ≡ true
      → nonzero (count_if p xs) ≡ some (count_if p xs)
  nonzero-count_if p [] x m h = absurd m
  nonzero-count_if p (y ∷ xs) x (inl e) h = rw (← e, h) (nonzero-suc (count_if p xs))
  nonzero-count_if p (y ∷ xs) x (inr m) h = elim (Bool-cases (p y)) [
    | inl t ↦ rw t (nonzero-suc (count_if p xs))
    | inr f ↦ rw f (nonzero-count_if p xs x m h)
  ]

  module _ (same : A → A → Bool) where
    pub group_by-Among : (xs : List A) (x : A) → Among x (group_by same xs) → Among x xs
    group_by-Among [] x m = m
    group_by-Among (y ∷ xs) x (inl e) = inl e
    group_by-Among (y ∷ xs) x (inr m) =
        inr (group_by-Among xs x (Among-keep_if (λ z. not (same y z)) (group_by same xs) x m).0)

    -- Each row is in the group of a row that stands for it, where the groups are disjoint.
    pub group_found :
        (xs : List A) (x : A)
        → ((y : A) → Among y xs → same y y ≡ true)
        → ((y z w : A)
            → Among y xs
            → Among z xs
            → same y z ≡ true
            → same z w ≡ true
            → same y w ≡ true)
        → Among x xs
        → (y : A) × Among y (group_by same xs) × (same y x ≡ true)
    group_found [] x r t m = absurd m
    group_found (y ∷ xs) x r t (inl e) = (y, inl refl, rw e (r y (inl refl)))
    group_found (y ∷ xs) x r t (inr m) =
        let (z, k, s) =
          group_found xs x (λ a n. r a (inr n)) (λ a b c n o. t a b c (inr n) (inr o)) m in
        elim (Bool-cases (same y z)) [
          | inl u ↦ (y, inl refl, t y z x (inl refl) (inr (group_by-Among xs z k)) u s)
          | inr f ↦
              (z, inr (keep_if-Among (λ w. not (same y w)) (group_by same xs) z k (rw f refl)), s)
        ]

module _ {A B : Type 0} (f : A → B) where
  pub Among-select :
      (xs : List A) (y : B) → Among y (select f xs) → (x : A) × Among x xs × (y ≡ f x)
  Among-select [] y m = absurd m
  Among-select (x ∷ xs) y (inl e) = (x, inl refl, e)
  Among-select (x ∷ xs) y (inr m) = let (z, k, e) = Among-select xs y m in (z, inr k, e)

  pub select-Among : (xs : List A) (x : A) → Among x xs → Among (f x) (select f xs)
  select-Among [] x m = absurd m
  select-Among (y ∷ xs) x (inl e) = inl (ap f e)
  select-Among (y ∷ xs) x (inr m) = inr (select-Among xs x m)
