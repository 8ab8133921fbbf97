-- ===== src/Comments/Order.antt =====
-- Parents come before their children, and no comment is lost (textlake/handlers/comments.py).
use meritmolt.Prelude.{
  ℕ, zero, suc, ◌≡◌, refl, ap, subst, inl, inr, ◌⊎◌, String, Bool, true, false, not, ◌&&◌, Option,
  none, some, List, [], ◌∷◌, ◌++◌, ◌==◌, length, find_if, keep_if, is_none, str_eq, eq_iff,
  Bool-cases, All, All-map, All-append, All-keep_if, keep_if_passes, Among,
}
use meritmolt.Entities.{is_member}
use meritmolt.Comments.{
  CommentRow, ids, parent_in, Degrees, start_degrees, same_parent, children, lower, release, drain,
  roots, orphaned, remaining, topological_sort,
}

-- The parent of the row is outside the batch, or is one of `seen`.
abbrev pub ParentSeen : List String → List String → CommentRow → Type 0
ParentSeen batch seen r =
    (parent_in batch r.parent_id ≡ false)
    ⊎ ((p : String) × (r.parent_id ≡ some p) × (is_member p seen ≡ true))

-- Every row's parent is outside the batch or comes before the row, after `seen`.
abbrev pub ParentsFirst : List String → List String → List CommentRow → Type 0
ParentsFirst batch seen [] = Unit
ParentsFirst batch seen (r ∷ rows) = ParentSeen batch seen r × ParentsFirst batch (r.id ∷ seen) rows

member_cons :
    (p i : String) (seen : List String) → is_member p seen ≡ true → is_member p (i ∷ seen) ≡ true
member_cons p i seen h = elim (Bool-cases (str_eq p i)) [
  | inl t ↦ rw t refl
  | inr f ↦ rw (f, h) refl
]

ParentSeen-cons :
    (batch seen : List String) (i : String) (r : CommentRow)
    → ParentSeen batch seen r
    → ParentSeen batch (i ∷ seen) r
ParentSeen-cons batch seen i r (inl outside) = inl outside
ParentSeen-cons batch seen i r (inr (p, e, m)) = inr (p, e, member_cons p i seen m)

Among-hit :
    (p : CommentRow → Bool) (xs : List CommentRow) (x : CommentRow)
    → Among x xs
    → p x ≡ true
    → is_none (find_if p xs) ≡ false
Among-hit p [] x among t = absurd among
Among-hit p (y ∷ xs) x (inl e) t = rw (subst (λ z. p z ≡ true) e t) refl
Among-hit p (y ∷ xs) x (inr among) t = elim (Bool-cases (p y)) [
  | inl h ↦ rw h refl
  | inr f ↦ rw f (Among-hit p xs x among t)
]

pub All-Among_self : (xs : List CommentRow) → All (λ x. Among x xs) xs
All-Among_self [] = tt
All-Among_self (x ∷ xs) = (
  inl refl,
  All-map (λ y. Among y xs) (λ y. Among y (x ∷ xs)) xs (λ y m. inr m) (All-Among_self xs),
)

All-both :
    (P Q R : CommentRow → Type 0) (xs : List CommentRow)
    → ((x : CommentRow) → P x → Q x → R x)
    → All P xs
    → All Q xs
    → All R xs
All-both P Q R [] k h j = tt
All-both P Q R (x ∷ xs) k h j = (k x h.0 j.0, All-both P Q R xs k h.1 j.1)

module _ (batch : List String) (rows : List CommentRow) where
  -- The children of a row have it as their parent.
  same_parent-some :
      (o : Option String) (i : String) → (parent_in batch o && same_parent o i) ≡ true → o ≡ some i
  same_parent-some none i h = absurd (cc)
  same_parent-some (some p) i h =
      ap some ((eq_iff p i).0 (and_last (is_member p batch) (str_eq p i) h))
    where
      and_last : (a b : Bool) → (a && b) ≡ true → b ≡ true
      and_last true b e = e
      and_last false b e = absurd (cc)

  children-ParentSeen :
      (i : String) (seen : List String) → All (ParentSeen batch (i ∷ seen)) (children batch rows i)
  children-ParentSeen i seen =
      All-map
        (λ (r : CommentRow). (parent_in batch r.parent_id && same_parent r.parent_id i) ≡ true)
        (ParentSeen batch (i ∷ seen)) (children batch rows i)
        (λ r h. inr (i, same_parent-some r.parent_id i h, rw ((eq_iff i i).1 refl) refl))
        (keep_if_passes
          (λ (r : CommentRow). parent_in batch r.parent_id && same_parent r.parent_id i) rows)

  release-All :
      (P : CommentRow → Type 0) (cs : List CommentRow) (degrees : Degrees)
      → All P cs
      → All P (release cs degrees).1
  unfolding release
  release-All P [] degrees h = tt
  release-All P (c ∷ cs) degrees h = elim (Bool-cases (degrees c.id == 1)) [
    | inl t ↦ rw t (h.0, release-All P cs (lower c.id degrees) h.1)
    | inr f ↦ rw f (release-All P cs (lower c.id degrees) h.1)
  ]

  drain-ParentsFirst :
      (fuel : ℕ) (ready : List CommentRow) (degrees : Degrees) (seen : List String)
      → All (ParentSeen batch seen) ready
      → ParentsFirst batch seen (drain batch rows fuel ready degrees)
  unfolding drain
  drain-ParentsFirst fuel [] degrees seen h = tt
  drain-ParentsFirst zero (r ∷ ready) degrees seen h = tt
  drain-ParentsFirst (suc fuel) (r ∷ ready) degrees seen h = (
    h.0,
    drain-ParentsFirst fuel _ _ (r.id ∷ seen) (
        All-append (ParentSeen batch (r.id ∷ seen)) ready _
          (All-map (ParentSeen batch seen) (ParentSeen batch (r.id ∷ seen)) ready
            (λ x k. ParentSeen-cons batch seen r.id x k) h.1)
          (release-All (ParentSeen batch (r.id ∷ seen)) (children batch rows r.id) degrees
            (children-ParentSeen r.id seen))),
  )

  start-ParentSeen :
      (r : CommentRow)
      → Among r rows
      → (start_degrees batch rows r.id == 0) ≡ true
      → ParentSeen batch [] r
  unfolding start_degrees
  start-ParentSeen r among h = elim (Bool-cases (parent_in batch r.parent_id)) [
    | inr f ↦ inl f
    | inl t ↦ absurd (let e : false ≡ true = rw (hit t) at h in cc)
  ]
    where
      hit :
          parent_in batch r.parent_id ≡ true
          → is_none
              (find_if (λ (x : CommentRow). str_eq x.id r.id && parent_in batch x.parent_id) rows)
            ≡ false
      hit t =
          Among-hit (λ (x : CommentRow). str_eq x.id r.id && parent_in batch x.parent_id) rows r
            among (rw ((eq_iff r.id r.id).1 refl, t) refl)

  roots-ParentSeen : All (ParentSeen batch []) (roots rows (start_degrees batch rows))
  roots-ParentSeen =
      All-both (λ r. Among r rows) (λ (r : CommentRow). (start_degrees batch rows r.id == 0) ≡ true)
        (ParentSeen batch []) (roots rows (start_degrees batch rows)) start-ParentSeen
        (All-keep_if (λ r. Among r rows) (λ (r : CommentRow). start_degrees batch rows r.id == 0)
          rows (All-Among_self rows))
        (keep_if_passes (λ (r : CommentRow). start_degrees batch rows r.id == 0) rows)

orphaned-ParentsFirst :
    (batch : List String) (rows : List CommentRow) (seen : List String)
    → ParentsFirst batch seen (orphaned rows)
orphaned-ParentsFirst batch [] seen = tt
orphaned-ParentsFirst batch (r ∷ rows) seen =
    (inl refl, orphaned-ParentsFirst batch rows (r.id ∷ seen))

ParentsFirst-append :
    (batch seen : List String) (xs ys : List CommentRow)
    → ParentsFirst batch seen xs
    → ((later : List String) → ParentsFirst batch later ys)
    → ParentsFirst batch seen (xs ++ ys)
ParentsFirst-append batch seen [] ys h k = k seen
ParentsFirst-append batch seen (x ∷ xs) ys h k =
    (h.0, ParentsFirst-append batch (x.id ∷ seen) xs ys h.1 k)

-- In the sorted rows, every row has no parent in the batch, or its parent comes before it.
pub topological_sort-ParentsFirst :
    (rows : List CommentRow) (batch : List String)
    → ParentsFirst batch [] (topological_sort rows batch)
unfolding topological_sort
topological_sort-ParentsFirst rows batch =
    ParentsFirst-append batch [] _ _
      (drain-ParentsFirst batch rows (length rows) _ (start_degrees batch rows) []
        (roots-ParentSeen batch rows))
      (λ later. orphaned-ParentsFirst batch _ later)

member_append :
    (i : String) (xs ys : List CommentRow)
    → (is_member i (ids xs) ≡ true) ⊎ (is_member i (ids ys) ≡ true)
    → is_member i (ids (xs ++ ys)) ≡ true
member_append i [] ys (inl h) = absurd (cc)
member_append i [] ys (inr h) = h
member_append i (x ∷ xs) ys h = elim (Bool-cases (str_eq i x.id)) [
  | inl t ↦ rw t refl
  | inr f ↦ rw f (member_append i xs ys (tail f h))
]
  where
    tail :
        str_eq i x.id ≡ false
        → (is_member i (ids (x ∷ xs)) ≡ true) ⊎ (is_member i (ids ys) ≡ true)
        → (is_member i (ids xs) ≡ true) ⊎ (is_member i (ids ys) ≡ true)
    tail f (inl k) = inl (rw f at k)
    tail f (inr k) = inr k

member_orphaned :
    (r : CommentRow) (p : CommentRow → Bool) (rows : List CommentRow)
    → Among r rows
    → p r ≡ true
    → is_member r.id (ids (orphaned (keep_if p rows))) ≡ true
member_orphaned r p [] among h = absurd among
member_orphaned r p (x ∷ rows) (inl e) h =
    let px : p x ≡ true = subst (λ y. p y ≡ true) e h in
    rw px (rw ((eq_iff r.id x.id).1 (ap (λ (y : CommentRow). y.id) e)) refl)
member_orphaned r p (x ∷ rows) (inr among) h = elim (Bool-cases (p x)) [
  | inl t ↦ rw t (member_cons r.id x.id _ (member_orphaned r p rows among h))
  | inr f ↦ rw f (member_orphaned r p rows among h)
]

-- Every comment of the batch is among the sorted rows, cycles included.
pub topological_sort_complete :
    (rows : List CommentRow) (batch : List String)
    → All (λ (r : CommentRow). is_member r.id (ids (topological_sort rows batch)) ≡ true) rows
unfolding topological_sort
topological_sort_complete rows batch =
    All-map (λ r. Among r rows)
      (λ (r : CommentRow). is_member r.id (ids (topological_sort rows batch)) ≡ true) rows placed
      (All-Among_self rows)
  where
    sorted : List CommentRow
    sorted =
        drain batch rows (length rows) (roots rows (start_degrees batch rows))
          (start_degrees batch rows)

    placed :
        (r : CommentRow) → Among r rows → is_member r.id (ids (topological_sort rows batch)) ≡ true
    placed r among =
        member_append r.id sorted (remaining sorted rows)
          (elim (Bool-cases (is_member r.id (ids sorted))) [
            | inl t ↦ inl t
            | inr f ↦ inr (
                member_orphaned r (λ (x : CommentRow). not (is_member x.id (ids sorted))) rows among
                  (rw f refl))
          ])
