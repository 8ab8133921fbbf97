-- ===== src/Handlers/Authors.antt =====
-- The authors of the posts of a feed (textlake/handlers/posts.py, textlake/utils.py) against the foreign key
-- author_id.
use meritmolt.Prelude.{
  ◌≡◌, refl, sym, ap, ◌⊎◌, inl, inr, String, Bool, true, false, Option, none, some, find_if-snoc,
  find_if-update_if, find_if_passes, eq_iff, Bool-cases, Option-cases,
}
use mathlib.Core.Option
use meritmolt.Errors.{Result, ok, err, ◌>>=◌}
use meritmolt.Json.{Json, null, text, object, Fields, truthy, ◌or◌, get}
use meritmolt.Auth.Moltbook.{to_str}
use meritmolt.Entities.{
  Cells, Table, has_row_id, enrich, set_cell, write_row, enrichment_upsert, mb_post, mb_submolt,
  upsert_post, upsert_submolt,
}
use meritmolt.Handlers.Stubs.{
  Python, Stub, agent_stub, submolt_stub, stub_of, stripped, parse_ts, post_row, is_empty, id_cell,
}
use meritmolt.Handlers.Store.{
  Store, Env, find_row, has_row, refers, post_keys, put_submolt, put_post, put_stub,
}
use meritmolt.Handlers.Parents.{Result-cases, upsert_rows}
use meritmolt.Handlers.Posts.{put_stubs, put_post_row, put_tasks, poll_item}

abbrev pub is_err {ℓ} : {A : Type ℓ} → Result A → Bool
is_err (ok a) = false
is_err (err e) = true

module _ (env : Env) (auth : Bool) (i : String) (cells : Cells) (s : Store) where
  -- A row has the author that was sent.
  author_written :
      (a : String)
      → cells "author_id" ≡ some (text a)
      → has_row s.agents a ≡ false
      → post_keys s
          (find_row (write_row mb_post auth env.now i cells (find_row s.posts i) s.posts) i)
        ≡ false
  unfolding enrich set_cell refers mb_post
  author_written a h k = elim (Option-cases (find_row s.posts i)) [
    | inl n ↦ rw n (
        rw
          (
            find_if-snoc (has_row_id i) s.posts
                (record { id = i; cells = cells; first_seen_at = env.now; last_seen_at = env.now })
                n,
            (eq_iff i i).1 refl,
            h,
            k,
          )
          refl)
    | inr (old, o) ↦ rw o (
        rw
          (
            find_if-update_if (has_row_id i) (has_row_id i) (enrich mb_post auth env.now cells)
                s.posts (λ x. refl),
            o,
            find_if_passes (has_row_id i) s.posts old o,
            h,
            k,
          )
          refl)
  ]

  unknown_refused :
      (a : String)
      → cells "author_id" ≡ some (text a)
      → has_row s.agents a ≡ false
      → is_err (put_post env auth i cells s) ≡ true
  unfolding put_post upsert_post
  unknown_refused a h k =
      elim (Result-cases (enrichment_upsert env.same_name mb_post auth env.now i cells s.posts)) [
        | inr (f, e) ↦ rw e refl
        | inl (after, e) ↦
            let w = upsert_rows env.same_name mb_post auth env.now i cells s.posts after e in
            let f : post_keys s (find_row after i) ≡ false = rw w (author_written a h k) in
            rw (e, f) refl
      ]

  null_refused : cells "author_id" ≡ none → is_err (put_post env auth i cells s) ≡ true
  unfolding put_post upsert_post enrichment_upsert mb_post
  null_refused h = rw h refl

abbrev id_in : Option (Option Stub) → String
id_in none = ""
id_in (some none) = ""
id_in (some (some stub)) = stub.id

abbrev author_in : Option (Option (String × Cells)) → Option Json
author_in none = none
author_in (some none) = none
author_in (some (some (j, cells))) = cells "author_id"

module _ (py : Python) (body : Fields) (i : String) (named : get "id" body ≡ text i)
    (filled : is_empty i ≡ false) where
  -- The stub of a body with an id has that id.
  stub_id : (stub : Stub) → agent_stub py body ≡ some (some stub) → stub.id ≡ i
  unfolding agent_stub ◌or◌ truthy to_str
  stub_id stub h =
      elim (Option-cases
        (stripped (get "name" body or (get "username" body or get "author_name" body)))) [
          | inl n ↦ absurd (let e = rw n at h in cc)
          | inr (name, e) ↦ elim (Bool-cases (is_empty name)) [
            | inl t ↦ absurd (let g = rw (e, t) at h in cc)
            | inr f ↦ elim (Option-cases (parse_ts py (get "created_at" body))) [
              | inl n ↦ absurd (let g = rw (e, f, n) at h in cc)
              | inr (created, c) ↦ let g = rw (e, f, c, named, filled) at h in sym (ap id_in g)
            ]
          ]
        ]

  named_or_none :
      (agent : Option Stub)
      → agent_stub py body ≡ some agent
      → (id_cell py agent ≡ none) ⊎ (id_cell py agent ≡ some (text i))
  named_or_none none h = inl refl
  named_or_none (some stub) h = inr (rw (stub_id stub h) refl)

  -- What _post_row makes of a body that names no author.
  row_author :
      (j : String) (cells : Cells)
      → get "author" body ≡ null
      → post_row py body ≡ some (some (j, cells))
      → (cells "author_id" ≡ none) ⊎ (cells "author_id" ≡ some (text i))
  unfolding post_row ◌or◌ truthy
  row_author j cells nobody h = elim (Option-cases (agent_stub py body)) [
    | inl n ↦ absurd (let g = rw (named, filled, nobody, n) at h in cc)
    | inr (agent, a) ↦
        elim (Option-cases (stub_of py (submolt_stub py) (get "submolt" body or object body))) [
          | inl n ↦ absurd (let g = rw (named, filled, nobody, a, n) at h in cc)
          | inr (submolt, b) ↦ elim (Option-cases (parse_ts py (get "created_at" body))) [
            | inl n ↦ absurd (let g = rw (named, filled, nobody, a, b, n) at h in cc)
            | inr (created, c) ↦ elim (Option-cases (parse_ts py (get "updated_at" body))) [
              | inl n ↦ absurd (let g = rw (named, filled, nobody, a, b, c, n) at h in cc)
              | inr (updated, d) ↦
                  let g = rw (named, filled, nobody, a, b, c, d) at h in
                  let same : id_cell py agent ≡ cells "author_id" = ap author_in g in
                  rw (sym same) (named_or_none agent a)
            ]
          ]
        ]
  ]

err_bind :
    {A B : Type 0} (m : Result A) (k : A → Result B) → is_err m ≡ true → is_err (m >>= k) ≡ true
err_bind (ok a) k h = absurd (cc)
err_bind (err e) k h = refl

map_some :
    {A B : Type 0} (f : A → B) (o : Option A) → Option.map (λ a. some (f a)) o ≡ some none → ⊥
map_some f none h = cc
map_some f (some a) h = cc

module _ (env : Env) (body : Fields) (s : Store) where
  submolt_agents :
      (built : Option Stub) (s' : Store)
      → put_stub env (put_submolt env false) built s ≡ ok s'
      → s'.agents ≡ s.agents
  unfolding put_submolt upsert_submolt
  submolt_agents none s' h = sym (ap agents_in h)
    where
      agents_in : Result Store → Table
      agents_in (ok st) = st.agents
      agents_in (err e) = s.agents
  submolt_agents (some stub) s' h =
      elim (Result-cases
        (enrichment_upsert env.same_name mb_submolt false env.now stub.id stub.cells s.submolts)) [
          | inr (f, e) ↦ absurd (let g = rw e at h in cc)
          | inl (after, e) ↦ let g = rw e at h in sym (ap agents_in g)
        ]
    where
      agents_in : Result Store → Table
      agents_in (ok st) = st.agents
      agents_in (err e) = s.agents

  stubs_agents :
      (s' : Store) → get "author" body ≡ null → put_stubs env body s ≡ ok s' → s'.agents ≡ s.agents
  unfolding put_stubs
  stubs_agents s' nobody h =
      elim (Option-cases (stub_of env.py (submolt_stub env.py) (get "submolt" body))) [
        | inl n ↦ absurd (let g = rw (nobody, n) at h in cc)
        | inr (built, e) ↦ submolt_agents built s' (rw (nobody, e) at h)
      ]

module _ (env : Env) (body : Fields) (i : String) (s : Store) (nobody : get "author" body ≡ null)
    (named : get "id" body ≡ text i) (filled : is_empty i ≡ false)
    (absent : has_row s.agents i ≡ false) where
  row_refused :
      (row : Option (String × Cells))
      → post_row env.py body ≡ some row
      → is_err (put_post_row env false row s) ≡ true
  unfolding post_row truthy
  row_refused none h = absurd (map_some _ _ (rw (named, filled) at h))
  row_refused (some (j, cells)) h = elim (row_author env.py body i named filled j cells nobody h) [
    | inl n ↦ null_refused env false j cells s n
    | inr a ↦ unknown_refused env false j cells s i a absent
  ]

-- An item of a feed that names no author object makes poll_posts_feed's step for it raise, unless
-- mb_agent has a row under the post's own id: the post's author is then taken from the post's body, its id
-- included, and that agent is not upserted.
pub authorless_refused :
    (env : Env) (body : Fields) (i : String) (s : Store)
    → get "author" body ≡ null
    → get "id" body ≡ text i
    → is_empty i ≡ false
    → has_row s.agents i ≡ false
    → is_err (poll_item env body s) ≡ true
unfolding poll_item
authorless_refused env body i s nobody named filled absent =
    elim (Result-cases (put_stubs env body s)) [
      | inr (f, e) ↦ rw e refl
      | inl (s₁, e) ↦ elim (Option-cases (post_row env.py body)) [
        | inl n ↦ rw (e, n) refl
        | inr (none_or, r) ↦
            rw (e, r)
              (err_bind (put_post_row env false none_or s₁) (λ s₂. ok (put_tasks env none_or s₂))
                (row_refused env body i s₁ nobody named filled
                  (rw (stubs_agents env body s s₁ nobody e) absent) none_or r))
      ]
    ]
