-- ===== src/Errors.antt =====
-- Exceptions that leave a request handler: FastAPI's HTTPException, and all else, which the
-- handler of main.py turns into a 500.
use meritmolt.Prelude.{ℕ, String, Option, none, some}

pub data Failure : Type 0 where
  http_exception : ℕ → String → Failure
  unhandled : Failure

pub data Result {ℓ} (A : Type ℓ) : Type ℓ where
  ok : A → Result A
  err : Failure → Result A

-- The status of the response that main.py's global_exception_handler sends for an exception.
unfoldable pub response_status : Failure → ℕ
response_status (http_exception status detail) = status
response_status unhandled = 500

-- `if x is None: raise`.
abbrev pub or_raise {ℓ} : {A : Type ℓ} → Option A → Failure → Result A
or_raise none e = err e
or_raise (some a) e = ok a

module _ {ℓ κ} {A : Type ℓ} {B : Type κ} where
  infixl 5 ◌>>=◌
  -- A statement after one that may raise.
  abbrev pub ◌>>=◌ : Result A → (A → Result B) → Result B
  err e >>= next = err e
  ok a >>= next = next a

module _ {κ} {B : Type κ} where
  infixl 5 ◌>>◌
  -- A call whose only result is that it returns.
  abbrev pub ◌>>◌ : Result (Unit {0}) → Result B → Result B
  err e >> next = err e
  ok done >> next = next
