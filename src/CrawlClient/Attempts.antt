-- ===== src/CrawlClient/Attempts.antt =====
-- What MoltbookClient.get comes to (textlake/client.py).
use meritmolt.Prelude.{
  ℕ, zero, suc, ◌<◌, ◌≡◌, refl, sym, ◌∙◌, ◌⊎◌, inl, inr, Bool, true, false, not, ◌||◌, Option, none,
  some, leb, ◌==◌, arith, Bool-cases,
}
use meritmolt.Json.{Json}
use meritmolt.Retrying.{Attempt, returned, raised, Retrying}
use meritmolt.CrawlClient.{
  Exception, should_retry, Response, unreachable, response, Reset, reset_at, unsaid, overflow,
  limit_error, parse_reset_time, json_of, attempt, get,
}

-- The loop does not go on after this.
abbrev pub is_final : Attempt Exception Json → Bool
is_final (returned body) = true
is_final (raised e) = not (should_retry e)

-- No connection, an unexpected 401, or an error of the server.
abbrev pub is_transient : Response → Bool
is_transient unreachable = true
is_transient (response status headers body) = (status == 401) || leb 500 status

limit_error_final : (now : ℕ) (r : Reset) → should_retry (limit_error now r) ≡ false
unfolding should_retry
limit_error_final now (reset_at at) = refl
limit_error_final now unsaid = refl
limit_error_final now overflow = refl

json_of_final : (body : Option Json) → is_final (json_of body) ≡ true
unfolding should_retry
json_of_final none = refl
json_of_final (some body) = refl

-- Only a failed connection, a 401 and a status from 500 on lead to another attempt: a 429 does not,
-- whatever its headers say, nor does a body that is not JSON.
pub attempt_final : (now : ℕ) (r : Response) → is_final (attempt now r) ≡ not (is_transient r)
unfolding attempt should_retry
attempt_final now unreachable = refl
attempt_final now (response status headers body) =
    ground (arith, limit_error_final now (parse_reset_time now headers), json_of_final body)

abbrev pub outcome : (ℕ → ℕ × Response) → ℕ → Attempt Exception Json
outcome answers k = attempt (answers k).0 (answers k).1

module _ (retrying : Retrying Exception Json) where
  run-first :
      (n : ℕ) (at : ℕ → Attempt Exception Json) (r : Attempt Exception Json)
      → at 0 ≡ r
      → is_final r ≡ true
      → retrying.run should_retry (suc n) at ≡ r
  run-first n at (returned body) h f = retrying.returns should_retry n at body h
  run-first n at (raised e) h f =
      retrying.gives_up should_retry n at e h (elim (Bool-cases (should_retry e)) [
        | inl t ↦ absurd (let g : false ≡ true = rw t at f in cc)
        | inr g ↦ g
      ])

  run-again :
      (n : ℕ) (at : ℕ → Attempt Exception Json) (r : Attempt Exception Json)
      → at 0 ≡ r
      → is_final r ≡ false
      → retrying.run should_retry (suc (suc n)) at
        ≡ retrying.run should_retry (suc n) (λ k. at (suc k))
  run-again n at (returned body) h f = absurd (cc)
  run-again n at (raised e) h f =
      retrying.retries should_retry n at e h (elim (Bool-cases (should_retry e)) [
        | inl t ↦ t
        | inr g ↦ absurd (let u : true ≡ false = rw g at f in cc)
      ])

  run-final :
      (k n : ℕ) (at : ℕ → Attempt Exception Json)
      → k < n
      → ((j : ℕ) → j < k → is_final (at j) ≡ false)
      → is_final (at k) ≡ true
      → retrying.run should_retry n at ≡ at k
  run-final k zero at lt h f = absurd (omega arith)
  run-final zero (suc n) at lt h f = run-first n at (at 0) refl f
  run-final (suc k) (suc zero) at lt h f = absurd (omega arith)
  run-final (suc k) (suc (suc n)) at lt h f =
      run-again n at (at 0) refl (h 0 (omega arith))
      ∙ run-final k (suc n) (λ j. at (suc j)) (omega arith) (λ j l. h (suc j) (omega arith)) f

  run-one :
      (at : ℕ → Attempt Exception Json) (r : Attempt Exception Json)
      → at 0 ≡ r
      → retrying.run should_retry 1 at ≡ r
  run-one at (returned body) h = retrying.returns should_retry 0 at body h
  run-one at (raised e) h = retrying.stops should_retry at e h

  run-last :
      (k : ℕ) (at : ℕ → Attempt Exception Json)
      → ((j : ℕ) → j < k → is_final (at j) ≡ false)
      → retrying.run should_retry (suc k) at ≡ at k
  run-last zero at h = run-one at (at 0) refl
  run-last (suc k) at h =
      run-again k at (at 0) refl (h 0 (omega arith))
      ∙ run-last k (λ j. at (suc j)) (λ j l. h (suc j) (omega arith))

-- `get` ends with the outcome of attempt k, value or exception, when every answer before it was
-- transient (no connection, 401, or a status from 500 on), and either the answer of attempt k is not
-- or it is the last of the attempts that the settings allow.
pub get_settles :
    (retrying : Retrying Exception Json) (max_attempts : ℕ) (answers : ℕ → ℕ × Response) (k : ℕ)
    → k < max_attempts
    → ((j : ℕ) → j < k → is_transient (answers j).1 ≡ true)
    → (is_transient (answers k).1 ≡ false) ⊎ (suc k ≡ max_attempts)
    → get retrying max_attempts answers ≡ attempt (answers k).0 (answers k).1
unfolding get
get_settles retrying max_attempts answers k lt before h =
    let earlier : (j : ℕ) → j < k → is_final (outcome answers j) ≡ false =
      λ j l. attempt_final (answers j).0 (answers j).1 ∙ (rw (before j l) refl) in
    elim h [
      | inl f ↦
          run-final retrying k max_attempts (outcome answers) lt earlier
            (attempt_final (answers k).0 (answers k).1 ∙ (rw f refl))
      | inr e ↦ rw (sym e) (run-last retrying k (outcome answers) earlier)
    ]
