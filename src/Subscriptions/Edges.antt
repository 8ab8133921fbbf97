-- ===== src/Subscriptions/Edges.antt =====
-- The edges that MeritRank is told of against the table subscribe (meritmolt/schema/ddl.py).
use meritmolt.Prelude.{
  ℕ, ◌≡◌, refl, sym, inl, inr, Bool, true, false, not, ◌&&◌, Option, none, some, List, [], ◌∷◌,
  ◌++◌, ◌⊎◌, find_if, keep_if, update_if, if◌then◌else◌, Bool-cases, Option-cases,
  find_if-append_none, find_if-keep_if, arith,
}
use mathlib.Core.Option
use meritmolt.Text.{Text, same_text, same_text_refl, same_text→≡}
use meritmolt.Subscriptions.{
  Subscribe, Call, put_edge, delete_edge, Graph, is_kind, mm_pgmer_prefix, bump_vsids, has_pair,
  notify_put, notify_delete, follow_row, put_row, delete_row,
}

-- An id that the prefix is put before.
abbrev pub IsPlain : Text → Type 0
IsPlain [] = ⊥
IsPlain (c ∷ cs) = is_kind c ≡ false

abbrev pub same_edge : Text → Text → Text → Text → Text → Text → Bool
same_edge src dst board a b c = same_text a src && (same_text b dst && same_text c board)

-- The weight of an edge after the calls: mr_put_edge sets it, mr_delete_edge removes the edge.
unfoldable pub edge_after : Text → Text → Text → List Call → Option ℕ
edge_after src dst board [] = none
edge_after src dst board (put_edge a b weight c ticker ∷ calls) =
    if same_edge src dst board a b c then some weight else edge_after src dst board calls
edge_after src dst board (delete_edge a b c ∷ calls) =
    if same_edge src dst board a b c then none else edge_after src dst board calls

abbrev pub user : Text → Text
user i = 85 ∷ i

prefix_plain : (i : Text) → IsPlain i → mm_pgmer_prefix 85 i ≡ user i
unfolding mm_pgmer_prefix
prefix_plain [] h = absurd h
prefix_plain (c ∷ cs) h = rw h refl

-- The weight that the rows say.
abbrev pub amount_of : Text → Text → List Subscribe → Option ℕ
amount_of s o rows = Option.map (λ (row : Subscribe). row.amount) (find_if (has_pair s o) rows)

same_pair : (s o s' o' : Text) → (same_text s s' && same_text o o') ≡ true → (s ≡ s') × (o ≡ o')
same_pair s o s' o' h = elim (Bool-cases (same_text s s')) [
  | inl t ↦ (same_text→≡ s s' t, same_text→≡ o o' (rw t at h))
  | inr f ↦ absurd (let e : false ≡ true = rw f at h in cc)
]

-- A row of one pair is no row of another.
other_pair :
    (s o s' o' : Text) (row : Subscribe)
    → has_pair s' o' row ≡ true
    → (same_text s' s && same_text o' o) ≡ false
    → has_pair s o row ≡ false
other_pair s o s' o' row h differs =
    let (a, b) = same_pair row.subject row.object s' o' h in rw (a, b) differs

module _ (p q : Subscribe → Bool) (row : Subscribe) where
  find_if-append_false :
      (xs : List Subscribe) → q row ≡ false → find_if q (xs ++ row ∷ []) ≡ find_if q xs
  find_if-append_false [] h = rw h refl
  find_if-append_false (x ∷ xs) h = ground (arith, find_if-append_false xs h)

  -- The row that takes the place of the one found is found.
  find_if-replace :
      (xs : List Subscribe) (old : Subscribe)
      → p row ≡ true
      → find_if p xs ≡ some old
      → find_if p (update_if p (λ _. row) xs) ≡ some row
  find_if-replace [] old t h = absurd (cc)
  find_if-replace (x ∷ xs) old t h = elim (Bool-cases (p x)) [
    | inl e ↦ rw (e, t) refl
    | inr e ↦ rw e (rw e (find_if-replace xs old t (rw e at h)))
  ]

  -- A row that is not asked for takes the place of such rows only.
  find_if-replace_other :
      (xs : List Subscribe)
      → q row ≡ false
      → ((x : Subscribe) → p x ≡ true → q x ≡ false)
      → find_if q (update_if p (λ _. row) xs) ≡ find_if q xs
  find_if-replace_other [] f h = refl
  find_if-replace_other (x ∷ xs) f h = elim (Bool-cases (p x)) [
    | inl e ↦ rw (e, f, h x e) (find_if-replace_other xs f h)
    | inr e ↦ rw e (ground (arith, find_if-replace_other xs f h))
  ]

find_if-removed :
    (p : Subscribe → Bool) (xs : List Subscribe) → find_if p (keep_if (λ x. not (p x)) xs) ≡ none
find_if-removed p [] = refl
find_if-removed p (x ∷ xs) = elim (Bool-cases (p x)) [
  | inl e ↦ rw e (find_if-removed p xs)
  | inr e ↦ rw e (rw e (find_if-removed p xs))
]

same_edge-user :
    (s o s' o' : Text)
    → same_edge (user s) (user o) [] (user s') (user o') [] ≡ (same_text s' s && same_text o' o)
unfolding same_text
same_edge-user s o s' o' = elim (Bool-cases (same_text o' o)) [
  | inl t ↦ rw t refl
  | inr f ↦ rw f refl
]

-- The latest call of a put says the weight of its own pair.
pub edge_after-notify_put :
    (s o : Text) (row : Subscribe) (calls : List Call)
    → IsPlain row.subject
    → IsPlain row.object
    → edge_after (user s) (user o) [] (notify_put row calls)
      ≡ (if has_pair s o row then some row.amount else edge_after (user s) (user o) [] calls)
unfolding edge_after notify_put
edge_after-notify_put s o row calls h k =
    rw
      (
        prefix_plain row.subject h,
        prefix_plain row.object k,
        same_edge-user s o row.subject row.object,
      )
      refl

pub edge_after-notify_delete :
    (s o s' o' : Text) (calls : List Call)
    → IsPlain s'
    → IsPlain o'
    → edge_after (user s) (user o) [] (notify_delete s' o' calls)
      ≡ (if same_text s' s && same_text o' o then none else edge_after (user s) (user o) [] calls)
unfolding edge_after notify_delete
edge_after-notify_delete s o s' o' calls h k =
    rw (prefix_plain s' h, prefix_plain o' k, same_edge-user s o s' o') refl

module _ (subject object : Text) where
  -- A pair that is another, or the pair itself.
  pub pair_cases :
      (s o : Text)
      → ((s ≡ subject) × (o ≡ object)) ⊎ ((same_text subject s && same_text object o) ≡ false)
  pair_cases s o = elim (Bool-cases (same_text subject s && same_text object o)) [
    | inl t ↦ let (a, b) = same_pair subject object s o t in inl (sym a, sym b)
    | inr f ↦ inr f
  ]

  own_pair : (t : ℕ) → has_pair subject object (follow_row subject object t) ≡ true
  own_pair t = rw (same_text_refl subject, same_text_refl object) refl

  not_own :
      (s o : Text) (x : Subscribe)
      → (same_text subject s && same_text object o) ≡ false
      → has_pair s o x ≡ true
      → not (has_pair subject object x) ≡ true
  not_own s o x f t = elim (Bool-cases (has_pair subject object x)) [
    | inl u ↦ absurd (let e = other_pair s o subject object x u f in cc)
    | inr u ↦ rw u refl
  ]

  pub put_row-amount :
      (g : Graph) (s o : Text)
      → amount_of s o (put_row (find_if (has_pair subject object) g.rows) subject object g).rows
        ≡ (if same_text subject s && same_text object o then some 1 else amount_of s o g.rows)
  unfolding put_row
  put_row-amount g s o = elim (Option-cases (find_if (has_pair subject object) g.rows)) [
    | inl n ↦ elim (pair_cases s o) [
      | inl (a, b) ↦
          let row = follow_row subject object (bump_vsids subject g.vsids subject) in
          rw
            (
              n,
              a,
              b,
              find_if-append_none (has_pair subject object) g.rows (row ∷ []) n,
              same_text_refl subject,
              same_text_refl object,
            )
            refl
      | inr f ↦
          let row = follow_row subject object (bump_vsids subject g.vsids subject) in
          rw (n, f, find_if-append_false (has_pair s o) (has_pair s o) row g.rows f) refl
    ]
    | inr (old, e) ↦
        let vsids = bump_vsids subject (bump_vsids subject g.vsids) in
        let row = follow_row subject object (vsids subject) in
        elim (pair_cases s o) [
          | inl (a, b) ↦
              rw
                (
                  e,
                  a,
                  b,
                  find_if-replace (has_pair subject object) (has_pair subject object) row g.rows old
                      (own_pair (vsids subject)) e,
                  same_text_refl subject,
                  same_text_refl object,
                )
                refl
          | inr f ↦
              rw
                (
                  e,
                  f,
                  find_if-replace_other (has_pair subject object) (has_pair s o) row g.rows f
                      (λ x u. other_pair s o subject object x u f),
                )
                refl
        ]
  ]

  pub delete_row-amount :
      (g : Graph) (s o : Text)
      → amount_of s o (delete_row (find_if (has_pair subject object) g.rows) subject object g).rows
        ≡ (if same_text subject s && same_text object o then none else amount_of s o g.rows)
  unfolding delete_row
  delete_row-amount g s o = elim (Option-cases (find_if (has_pair subject object) g.rows)) [
    | inl n ↦ elim (pair_cases s o) [
      | inl (a, b) ↦ rw (n, a, b, n, same_text_refl subject, same_text_refl object) refl
      | inr f ↦ rw (n, f) refl
    ]
    | inr (old, e) ↦ elim (pair_cases s o) [
      | inl (a, b) ↦
          rw
            (
              e,
              a,
              b,
              find_if-removed (has_pair subject object) g.rows,
              same_text_refl subject,
              same_text_refl object,
            )
            refl
      | inr f ↦
          rw
            (
              e,
              f,
              find_if-keep_if (has_pair s o) (λ x. not (has_pair subject object x)) g.rows
                  (λ x t. not_own s o x f t),
            )
            refl
    ]
  ]
