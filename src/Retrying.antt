-- ===== src/Retrying.antt =====
-- tenacity's retry loop, which MoltBook's two clients go through: a library, hence a parameter. `run`
-- takes the test of `retry_if_exception`, the bound of `stop_after_attempt`, and what each attempt
-- comes to; the laws are those of `reraise=True`.
use meritmolt.Prelude.{ℕ, zero, suc, ◌≡◌, Bool, true, false, if◌then◌else◌}

-- What one attempt comes to: a value, or an exception.
pub data Attempt {ℓ κ} (E : Type ℓ) (A : Type κ) : Type (ℓ ⊔ κ) where
  returned : A → Attempt E A
  raised : E → Attempt E A

pub record Retrying (E A : Type 0) : Type 0 where
  pub run : (E → Bool) → ℕ → (ℕ → Attempt E A) → Attempt E A
  pub returns :
      (retry : E → Bool) (n : ℕ) (at : ℕ → Attempt E A) (a : A)
      → at 0 ≡ returned a
      → run retry (suc n) at ≡ returned a
  pub gives_up :
      (retry : E → Bool) (n : ℕ) (at : ℕ → Attempt E A) (e : E)
      → at 0 ≡ raised e
      → retry e ≡ false
      → run retry (suc n) at ≡ raised e
  pub stops :
      (retry : E → Bool) (at : ℕ → Attempt E A) (e : E)
      → at 0 ≡ raised e
      → run retry 1 at ≡ raised e
  pub retries :
      (retry : E → Bool) (n : ℕ) (at : ℕ → Attempt E A) (e : E)
      → at 0 ≡ raised e
      → retry e ≡ true
      → run retry (suc (suc n)) at ≡ run retry (suc n) (λ k. at (suc k))

-- A loop that meets the laws.
module _ {E A : Type 0} where
  pub again : (E → Bool) → ℕ → (ℕ → Attempt E A) → Attempt E A → Attempt E A
  again retry zero at outcome = outcome
  again retry (suc n) at (returned a) = returned a
  again retry (suc n) at (raised e) =
      let rest = again retry n (λ k. at (suc k)) (at 1) in if retry e then rest else raised e

  abbrev pub attempts : (E → Bool) → ℕ → (ℕ → Attempt E A) → Attempt E A
  attempts retry zero at = at 0
  attempts retry (suc n) at = again retry n at (at 0)

  pub attempts_returns :
      (retry : E → Bool) (n : ℕ) (at : ℕ → Attempt E A) (a : A)
      → at 0 ≡ returned a
      → attempts retry (suc n) at ≡ returned a
  unfolding again
  attempts_returns retry zero at a h = h
  attempts_returns retry (suc n) at a h = rw (h, again)

  pub attempts_gives_up :
      (retry : E → Bool) (n : ℕ) (at : ℕ → Attempt E A) (e : E)
      → at 0 ≡ raised e
      → retry e ≡ false
      → attempts retry (suc n) at ≡ raised e
  unfolding again
  attempts_gives_up retry zero at e h r = h
  attempts_gives_up retry (suc n) at e h r = rw (h, again) (rw r)

  pub attempts_stops :
      (retry : E → Bool) (at : ℕ → Attempt E A) (e : E)
      → at 0 ≡ raised e
      → attempts retry 1 at ≡ raised e
  unfolding again
  attempts_stops retry at e h = h

  pub attempts_retries :
      (retry : E → Bool) (n : ℕ) (at : ℕ → Attempt E A) (e : E)
      → at 0 ≡ raised e
      → retry e ≡ true
      → attempts retry (suc (suc n)) at ≡ attempts retry (suc n) (λ k. at (suc k))
  unfolding again
  attempts_retries retry n at e h r = rw (h, again) (rw r)

  abbrev pub plain_retrying : Retrying E A
  plain_retrying = record {
    run = attempts;
    returns = attempts_returns;
    gives_up = attempts_gives_up;
    stops = attempts_stops;
    retries = attempts_retries;
  }
