-- ===== src/RateLimit/Store/Bounds.antt =====
-- The size and the keys of a BucketStore, and the bucket that a key keeps
-- (meritmolt/ratelimit.py).
use meritmolt.Prelude.{
  ℕ, ◌-◌, ◌≤◌, ◌<◌, max, Bool, true, false, not, Option, none, some, List, [], ◌∷◌, ◌++◌, ◌≡◌, ◌≢◌,
  refl, sym, ◌∙◌, inl, inr, arith, length, length-append, find_if, update_if, leb, ltb, Bool-cases,
  Option-cases, All, keep_if_passes, All-map, Distinct, Distinct-append, Distinct-update,
  Distinct-keep_if, length-keep_if_lt, find_if_absent, find_if_passes, find_if-append_none,
  find_if-append, find_if-keep_if, find_if-update_if, find_if-none, length-update_if,
}
use meritmolt.Text.{Text, same_text, same_text_refl, same_text→≡}
use meritmolt.RateLimit.Bucket.{try_acquire}
use meritmolt.RateLimit.Store.{
  Entry, BucketStore, has_key, Readings, without, evict, create, found_or_create, get_or_create,
  acquire,
}

-- At most max_keys entries (one, when max_keys is 0), and one entry per key.
pub record IsValid (store : BucketStore) : Type 0 where
  pub bounded : length store.order ≤ max 1 store.max_keys
  pub keys : Distinct (λ (e : Entry). e.key) store.order

length-evict : (n : ℕ) (order : List Entry) → length (evict n order) < max 1 n
unfolding evict
length-evict n [] = omega arith
length-evict n (e ∷ order) = ground (arith, length-evict n order)

All-evict {κ} :
    (P : Entry → Type κ) (n : ℕ) (order : List Entry) → All P order → All P (evict n order)
unfolding evict
All-evict P n [] h = tt
All-evict P n (e ∷ order) h = elim (Bool-cases (leb n (length (e ∷ order)))) [
  | inl t ↦ rw t (All-evict P n order h.1)
  | inr f ↦ rw f h
]

Distinct-evict :
    (n : ℕ) (order : List Entry)
    → Distinct (λ (e : Entry). e.key) order
    → Distinct (λ (e : Entry). e.key) (evict n order)
unfolding evict
Distinct-evict n [] h = tt
Distinct-evict n (e ∷ order) h = elim (Bool-cases (leb n (length (e ∷ order)))) [
  | inl t ↦ rw t (Distinct-evict n order h.1)
  | inr f ↦ rw f h
]

abbrev Absent : Text → List Entry → Type 0
Absent key order = All (λ (e : Entry). e.key ≢ key) order

without-Absent : (key : Text) (order : List Entry) → Absent key (without key order)
without-Absent key order =
    All-map (λ (e : Entry). not (has_key key e) ≡ true) (λ (e : Entry). e.key ≢ key)
      (without key order) (λ e h same. absurd (differs e h same))
      (keep_if_passes (λ e. not (has_key key e)) order)
  where
    differs : (e : Entry) → not (has_key key e) ≡ true → e.key ≡ key → ⊥
    differs e h same =
        let t : same_text e.key key ≡ true = rw same (same_text_refl key) in
        let f : false ≡ true = rw t at h in cc

without-shorter :
    (key : Text) (order : List Entry) (e : Entry)
    → find_if (has_key key) order ≡ some e
    → length (without key order) < length order
without-shorter key order e found =
    length-keep_if_lt (λ e. not (has_key key e)) (has_key key) order e (λ y t. rw t refl) found

-- The list of a valid store.
abbrev Good : ℕ → List Entry → Type 0
Good n order = (length order ≤ max 1 n) × Distinct (λ (e : Entry). e.key) order

create-Good :
    (key : Text) (burst rate : ℕ) (r : Readings) (n : ℕ) (order : List Entry)
    → Distinct (λ (e : Entry). e.key) order
    → Absent key order
    → Good n (create key burst rate r n order).1
unfolding create
create-Good key burst rate r n order keys absent = (
  omega (arith, length-append (evict n order) (_ ∷ []), length-evict n order),
  Distinct-append (λ (e : Entry). e.key) (evict n order) _ (Distinct-evict n order keys)
      (All-evict (λ (e : Entry). e.key ≢ key) n order absent),
)

found_or_create-Good :
    (o : Option Entry) (key : Text) (burst rate : ℕ) (r : Readings) (store : BucketStore)
    → IsValid store
    → find_if (has_key key) store.order ≡ o
    → Good store.max_keys (found_or_create o key burst rate r store).1
unfolding found_or_create
found_or_create-Good none key burst rate r store v found =
    create-Good key burst rate r store.max_keys store.order v.keys (
      find_if_absent (λ (e : Entry). e.key) same_text key store.order
        (λ c e. rw e (same_text_refl key)) found)
found_or_create-Good (some e) key burst rate r store v found =
    elim (Bool-cases (ltb store.ttl (r.looked - e.created))) [
      | inl t ↦ rw t (
          create-Good key burst rate r store.max_keys (without key store.order)
            (Distinct-keep_if (λ (x : Entry). x.key) _ store.order v.keys)
            (without-Absent key store.order))
      | inr f ↦ rw f (
        omega (
          arith,
          length-append (without key store.order) (e ∷ []),
          v.bounded,
          without-shorter key store.order e found,
        ),
        Distinct-append (λ (x : Entry). x.key) (without key store.order) e
            (Distinct-keep_if (λ (x : Entry). x.key) _ store.order v.keys)
            (rw (same_text→≡ e.key key (find_if_passes (has_key key) store.order e found))
              (without-Absent key store.order)),
      )
    ]

-- Looking a key up, and changing its bucket, keep the size of the store within its limit and its
-- keys apart, whether the bucket is found, expired or new.
pub acquire-IsValid :
    (key : Text) (burst rate : ℕ) (r : Readings) (store : BucketStore)
    → IsValid store
    → IsValid (acquire key burst rate r store).1
unfolding acquire get_or_create
acquire-IsValid key burst rate r store v =
    let (bounded, keys) =
      found_or_create-Good (find_if (has_key key) store.order) key burst rate r store v refl in
    record {
      bounded = rw (length-update_if (has_key key) _ _) bounded;
      keys = Distinct-update (λ (e : Entry). e.key) (has_key key) _ _ (λ e. refl) keys;
    }

-- The entry of a key.
abbrev pub entry_of : Text → BucketStore → Option Entry
entry_of key store = find_if (has_key key) store.order

hit_order :
    (key : Text) (burst rate : ℕ) (r : Readings) (store : BucketStore) (e : Entry)
    → entry_of key store ≡ some e
    → r.looked - e.created ≤ store.ttl
    → found_or_create (find_if (has_key key) store.order) key burst rate r store
      ≡ (e.bucket, without key store.order ++ e ∷ [])
unfolding found_or_create
hit_order key burst rate r store e found fresh =
    let f : ltb store.ttl (r.looked - e.created) ≡ false = ground arith in rw (found, f) refl

not-true : (b : Bool) → not b ≡ true → b ≡ false
not-true true h = absurd (cc)
not-true false h = refl

-- An entry of one key is no entry of another.
has_key_other :
    (key other : Text) (e : Entry) → has_key key e ≡ true → other ≢ key → has_key other e ≡ false
has_key_other key other e h differs = elim (Bool-cases (has_key other e)) [
  | inl t ↦ absurd (differs (sym (same_text→≡ e.key other t) ∙ same_text→≡ e.key key h))
  | inr f ↦ f
]

find_if-moved :
    (key : Text) (order : List Entry) (e : Entry)
    → has_key key e ≡ true
    → find_if (has_key key) (without key order ++ e ∷ []) ≡ some e
find_if-moved key order e h =
    find_if-append_none (has_key key) (without key order) (e ∷ []) (
      find_if-none (has_key key) (without key order) (
        All-map (λ x. not (has_key key x) ≡ true) (λ x. has_key key x ≡ false) (without key order)
          (λ x n. not-true (has_key key x) n) (keep_if_passes (λ x. not (has_key key x)) order)))
    ∙ rw h refl

find_if-unmoved :
    (key other : Text) (order : List Entry) (e : Entry)
    → has_key key e ≡ true
    → other ≢ key
    → find_if (has_key other) (without key order ++ e ∷ []) ≡ find_if (has_key other) order
find_if-unmoved key other order e h differs = elim (Option-cases (find_if (has_key other) order)) [
  | inl unknown ↦
      find_if-append_none (has_key other) (without key order) (e ∷ []) (kept ∙ unknown)
      ∙ rw (has_key_other key other e h differs, unknown) refl
  | inr (x, known) ↦
      find_if-append (has_key other) (without key order) (e ∷ []) x (kept ∙ known) ∙ sym known
]
  where
    kept : find_if (has_key other) (without key order) ≡ find_if (has_key other) order
    kept =
        find_if-keep_if (has_key other) (λ x. not (has_key key x)) order
          (λ x t. rw (has_key_other other key x t (λ same. differs (sym same))) refl)

-- Within the lifetime of its entry a key is served from its own bucket: the answer is that of the
-- bucket, the entry then holds the changed bucket, and no other key's entry changes.
pub acquire_hit :
    (key : Text) (burst rate : ℕ) (r : Readings) (store : BucketStore) (e : Entry)
    → entry_of key store ≡ some e
    → r.looked - e.created ≤ store.ttl
    → ((acquire key burst rate r store).0 ≡ (try_acquire r.taken e.bucket).0)
      × (entry_of key (acquire key burst rate r store).1
          ≡ some (record e { bucket = (try_acquire r.taken e.bucket).1 }))
      × ((other : Text)
          → other ≢ key
          → entry_of other (acquire key burst rate r store).1 ≡ entry_of other store)
unfolding acquire get_or_create
acquire_hit key burst rate r store e found fresh =
    rw (hit_order key burst rate r store e found fresh) (refl, own, others)
  where
    mine : has_key key e ≡ true
    mine = find_if_passes (has_key key) store.order e found

    change : Entry → Entry
    change x = record x { bucket = (try_acquire r.taken e.bucket).1 }

    own :
        find_if (has_key key) (update_if (has_key key) change (without key store.order ++ e ∷ []))
        ≡ some (change e)
    own =
        find_if-update_if (has_key key) (has_key key) change (without key store.order ++ e ∷ [])
          (λ x. refl)
        ∙ rw (find_if-moved key store.order e mine, mine) refl

    others :
        (other : Text)
        → other ≢ key
        → find_if
            (has_key other)
            (update_if (has_key key) change (without key store.order ++ e ∷ []))
          ≡ find_if (has_key other) store.order
    others other differs =
        find_if-update_if (has_key other) (has_key key) change (without key store.order ++ e ∷ [])
          (λ x. refl)
        ∙ rw (find_if-unmoved key other store.order e mine differs)
            (elim (Option-cases (find_if (has_key other) store.order)) [
              | inl unknown ↦ rw unknown refl
              | inr (x, known) ↦
                  rw
                    (
                      known,
                      has_key_other other key x (find_if_passes (has_key other) store.order x known)
                          (λ same. differs (sym same)),
                    )
                    refl
            ])
