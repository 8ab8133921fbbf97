-- ===== src/Database/Startup/Retries.antt =====
-- How the retries of meritrank_bulk_init end (meritmolt/database.py).
use meritmolt.Prelude.{
  ℕ, zero, suc, ◌*◌, ◌<◌, ◌≡◌, refl, subst, true, false, min, List, [], ◌∷◌, ◌==◌, arith,
}
use meritmolt.Database.Startup.{
  Raised, is_meritrank_retryable, Execution, executed, dbapi_error, other_error, Finish, failed,
  retry_from, meritrank_init_with_retry,
}

-- An attempt that fails as MeritRank does while it starts.
abbrev pub TryAgain : Execution → Type 0
TryAgain executed = ⊥
TryAgain (other_error e) = ⊥
TryAgain (dbapi_error e) = is_meritrank_retryable e ≡ true

-- The sleeps of the first attempts.
abbrev pub sleeps_before : ℕ → List ℕ
sleeps_before zero = []
sleeps_before (suc zero) = 1 ∷ []
sleeps_before (suc (suc zero)) = 1 ∷ 2 ∷ []
sleeps_before (suc (suc (suc zero))) = 1 ∷ 2 ∷ 4 ∷ []
sleeps_before (suc (suc (suc (suc k)))) = 1 ∷ 2 ∷ 4 ∷ 8 ∷ []

-- The loop when an attempt but the last asks to try again.
goes_on :
    (execute : ℕ → Execution) (left attempt delay : ℕ)
    → TryAgain (execute attempt)
    → (attempt == 4) ≡ false
    → retry_from execute (suc left) attempt delay ≡ (
        let (finish, sleeps) = retry_from execute left (suc attempt) (min (delay * 2) 30) in
        (finish, delay ∷ sleeps))
unfolding retry_from
goes_on execute left attempt delay h last = by (execute attempt) refl h
  where
    by :
        (x : Execution)
        → execute attempt ≡ x
        → TryAgain x
        → retry_from execute (suc left) attempt delay ≡ (
            let (finish, sleeps) = retry_from execute left (suc attempt) (min (delay * 2) 30) in
            (finish, delay ∷ sleeps))
    by executed e t = absurd t
    by (other_error x) e t = absurd t
    by (dbapi_error x) e t = rw (retry_from, e, t, last) refl

-- The loop from the first attempt, once the attempts before `k` asked to try again.
reaches :
    (execute : ℕ → Execution) (k : ℕ)
    → k < 5
    → ((j : ℕ) → j < k → TryAgain (execute j))
    → (end : Finish) → ((left delay : ℕ) → retry_from execute (suc left) k delay ≡ (end, []))
    → meritrank_init_with_retry execute ≡ (end, sleeps_before k)
unfolding meritrank_init_with_retry
reaches execute zero lt h end e = e 4 1
reaches execute (suc zero) lt h end e =
    rw (goes_on execute 4 0 1 (h 0 (omega arith)) refl, e 3 2) refl
reaches execute (suc (suc zero)) lt h end e =
    rw
      (
        goes_on execute 4 0 1 (h 0 (omega arith)) refl,
        goes_on execute 3 1 2 (h 1 (omega arith)) refl,
        e 2 4,
      )
      refl
reaches execute (suc (suc (suc zero))) lt h end e =
    rw
      (
        goes_on execute 4 0 1 (h 0 (omega arith)) refl,
        goes_on execute 3 1 2 (h 1 (omega arith)) refl,
        goes_on execute 2 2 4 (h 2 (omega arith)) refl,
        e 1 8,
      )
      refl
reaches execute (suc (suc (suc (suc zero)))) lt h end e =
    rw
      (
        goes_on execute 4 0 1 (h 0 (omega arith)) refl,
        goes_on execute 3 1 2 (h 1 (omega arith)) refl,
        goes_on execute 2 2 4 (h 2 (omega arith)) refl,
        goes_on execute 1 3 8 (h 3 (omega arith)) refl,
        e 0 16,
      )
      refl
reaches execute (suc (suc (suc (suc (suc k))))) lt h end e = absurd (omega (arith, lt))

refused :
    (execute : ℕ → Execution) (left attempt delay : ℕ) (e : Raised)
    → execute attempt ≡ dbapi_error e
    → is_meritrank_retryable e ≡ false
    → retry_from execute (suc left) attempt delay ≡ (failed e, [])
unfolding retry_from
refused execute left attempt delay e at f = rw (retry_from, at, f) refl

-- PostgreSQL's transactions: once a statement failed, the later ones of the transaction fail, and
-- their error does not ask to try again.
abbrev pub Aborts : (ℕ → Execution) → Type 0
Aborts execute =
    (k : ℕ)
    → TryAgain (execute k)
    → (e : Raised) × (execute (suc k) ≡ dbapi_error e) × (is_meritrank_retryable e ≡ false)

-- All attempts share one transaction. So after a first attempt that asks to try again there is one
-- more, which fails, and the initialisation ends with that error, when a failed statement aborts its
-- transaction.
pub init_aborted :
    (execute : ℕ → Execution)
    → Aborts execute
    → TryAgain (execute 0)
    → (e : Raised) × (meritrank_init_with_retry execute ≡ (failed e, 1 ∷ []))
init_aborted execute aborts first =
    let (e, at, refuses) = aborts 0 first in
    (
      e,
      reaches execute 1 (omega arith)
          (λ j lt. subst (λ i. TryAgain (execute i)) (omega (arith, lt)) first) (failed e)
          (λ left delay. refused execute left 1 delay e at refuses),
    )
