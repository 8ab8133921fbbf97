-- ===== src/Comments/Fuel.antt =====
-- The queue of the sort is empty after as many turns as there are comments
-- (textlake/handlers/comments.py).
use meritmolt.Prelude.{
  ℕ, zero, suc, ◌+◌, ◌≤◌, ◌<◌, ◌≡◌, refl, ap, subst, ◌∙◌, inl, inr, String, Bool, true, false, List,
  [], ◌∷◌, ◌==◌, length, length-append, keep_if, count_if, eq_iff, Bool-cases, All, All-keep_if,
  Among, arith,
}
use meritmolt.Comments.{CommentRow, Degrees, start_degrees, children, lower, release, drain, roots}
use meritmolt.Comments.Order.{All-Among_self}

-- How many rows wait for one parent.
abbrev pending : List CommentRow → Degrees → ℕ
pending rows degrees = count_if (λ (r : CommentRow). degrees r.id == 1) rows

abbrev Small : Degrees → Type 0
Small degrees = (i : String) → degrees i ≤ 1

module _ (p q : CommentRow → Bool) (sub : (x : CommentRow) → p x ≡ true → q x ≡ true) where
  count_if-le : (xs : List CommentRow) → count_if p xs ≤ count_if q xs
  count_if-le [] = omega arith
  count_if-le (x ∷ xs) = elim (Bool-cases (p x)) [
    | inl t ↦ rw (t, sub x t) (omega (arith, count_if-le xs))
    | inr f ↦ rw f (ground (arith, count_if-le xs))
  ]

  count_if-lt :
      (xs : List CommentRow) (x : CommentRow)
      → Among x xs
      → p x ≡ false
      → q x ≡ true
      → count_if p xs < count_if q xs
  count_if-lt [] x among f t = absurd among
  count_if-lt (y ∷ xs) x (inl e) f t =
      rw (subst (λ z. p z ≡ false) e f, subst (λ z. q z ≡ true) e t) (omega (arith, count_if-le xs))
  count_if-lt (y ∷ xs) x (inr among) f t = elim (Bool-cases (p y)) [
    | inl h ↦ rw (h, sub y h) (omega (arith, count_if-lt xs x among f t))
    | inr h ↦ rw h (ground (arith, count_if-lt xs x among f t))
  ]

lower-Small : (i : String) (degrees : Degrees) → Small degrees → Small (lower i degrees)
lower-Small i degrees small j = ground (arith, small j)

lower_sub :
    (i : String) (degrees : Degrees)
    → Small degrees
    → (r : CommentRow) → (lower i degrees r.id == 1) ≡ true
    → (degrees r.id == 1) ≡ true
lower_sub i degrees small r h = ground (arith, small r.id, h)

module _ (rows : List CommentRow) where
  release-pending :
      (cs : List CommentRow) (degrees : Degrees)
      → Small degrees
      → All (λ c. Among c rows) cs
      → (length (release cs degrees).1 + pending rows (release cs degrees).0 ≤ pending rows degrees)
        × Small (release cs degrees).0
  unfolding release
  release-pending [] degrees small h = (omega arith, small)
  release-pending (c ∷ cs) degrees small h =
      let (fewer, still) =
        release-pending cs (lower c.id degrees) (lower-Small c.id degrees small) h.1 in
      (
        elim (Bool-cases (degrees c.id == 1)) [
          | inl t ↦ rw t (
              omega (
                arith,
                fewer,
                count_if-lt _ _ (lower_sub c.id degrees small) rows c h.0 (lowered t) t,
              ))
          | inr f ↦ rw f (omega (arith, fewer, count_if-le _ _ (lower_sub c.id degrees small) rows))
        ],
        still,
      )
    where
      lowered : (degrees c.id == 1) ≡ true → (lower c.id degrees c.id == 1) ≡ false
      lowered t = rw ((eq_iff c.id c.id).1 refl) (ground (arith, t))

  drain_enough :
      (batch : List String) (fuel extra : ℕ) (ready : List CommentRow) (degrees : Degrees)
      → Small degrees
      → length ready + pending rows degrees ≤ fuel
      → drain batch rows (fuel + extra) ready degrees ≡ drain batch rows fuel ready degrees
  unfolding drain
  drain_enough batch fuel extra [] degrees small enough = refl
  drain_enough batch zero extra (r ∷ ready) degrees small enough = absurd (omega (arith, enough))
  drain_enough batch (suc fuel) extra (r ∷ ready) degrees small enough =
      let (fewer, still) =
        release-pending (children batch rows r.id) degrees small
          (All-keep_if (λ c. Among c rows) _ rows (All-Among_self rows)) in
      let one_more : suc fuel + extra ≡ suc (fuel + extra) = omega arith in
      ap (λ n. drain batch rows n (r ∷ ready) degrees) one_more
      ∙ ap (λ out. r ∷ out)
          (drain_enough batch fuel extra _ _ still (
            omega (
              arith,
              fewer,
              enough,
              length-append ready (release (children batch rows r.id) degrees).1,
            )))

apart :
    (p q : CommentRow → Bool) (xs : List CommentRow)
    → ((x : CommentRow) → p x ≡ true → q x ≡ false)
    → length (keep_if p xs) + count_if q xs ≤ length xs
apart p q [] h = omega arith
apart p q (x ∷ xs) h = elim (Bool-cases (p x)) [
  | inl t ↦ rw (t, h x t) (omega (arith, apart p q xs h))
  | inr f ↦ rw f (ground (arith, apart p q xs h))
]

-- The loop of the sort ends within as many turns as there are rows: with more fuel than that, its
-- output is the same.
pub drain_ends :
    (rows : List CommentRow) (batch : List String) (extra : ℕ)
    → let degrees = start_degrees batch rows in
      drain batch rows (length rows + extra) (roots rows degrees) degrees
      ≡ drain batch rows (length rows) (roots rows degrees) degrees
drain_ends rows batch extra =
    drain_enough rows batch (length rows) extra (roots rows (start_degrees batch rows))
      (start_degrees batch rows) (λ i. unfold start_degrees in ground arith)
      (apart (λ (r : CommentRow). start_degrees batch rows r.id == 0)
        (λ (r : CommentRow). start_degrees batch rows r.id == 1) rows (λ x h. ground (arith, h)))
