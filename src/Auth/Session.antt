-- ===== src/Auth/Session.antt =====
-- The request's database session (meritmolt/auth/dependencies.py, get_db_session): an action works
-- on the transaction's view of the tables, and what it flushed stays in that view when it raises.
use meritmolt.Prelude.{◌≡◌, refl, Bool, true, false}
use meritmolt.Errors.{Failure, http_exception, Result, ok, err}
use meritmolt.Auth.Tables.{Db}

abbrev pub Session {ℓ} : Type ℓ → Type ℓ
Session A = Db → Result A × Db

module _ {ℓ} {A : Type ℓ} where
  abbrev pub pure : A → Session A
  pure a db = (ok a, db)

  abbrev pub raise : Failure → Session A
  raise e db = (err e, db)

  abbrev pub lift : Result A → Session A
  lift r db = (r, db)

  abbrev pub gets : (Db → A) → Session A
  gets f db = (ok (f db), db)

abbrev pub modify : (Db → Db) → Session (Unit {0})
modify f db = (ok tt, f db)

module _ {ℓ κ} {A : Type ℓ} {B : Type κ} where
  abbrev pub continue : Result A → (A → Db → Result B × Db) → Db → Result B × Db
  continue (ok a) f db = f a db
  continue (err e) f db = (err e, db)

  infixl 5 ◌>>=◌
  abbrev pub ◌>>=◌ : (Db → Result A × Db) → (A → Db → Result B × Db) → Db → Result B × Db
  ◌>>=◌ m f db = let (r, db') = m db in continue r f db'

infixl 5 ◌>>◌
abbrev pub ◌>>◌ {ℓ} : {B : Type ℓ} → Session (Unit {0}) → Session B → Session B
m >> k = m >>= λ _. k

-- What the commit or the rollback leaves behind. The code after the `yield` runs when the response of
-- a handler that returned is sent, so that a commit that fails changes no response. `commits` says
-- whether the database accepts the commit.
abbrev pub finish {ℓ} : {A : Type ℓ} → Bool → Db → Result A → Db → Result A × Db
finish true before (ok a) after = (ok a, after)
finish false before (ok a) after = (ok a, before)
finish commits before (err e) after = (err e, before)

-- A request whose handler depends on get_db_session. `initialised` says whether init_db has set the
-- session factory.
unfoldable pub with_db_session {ℓ} : {A : Type ℓ} → Bool → Bool → Session A → Session A
with_db_session false commits handler db = (err (http_exception 503 "Database not initialized"), db)
with_db_session true commits handler db = let (r, after) = handler db in finish commits db r after

module _ {ℓ κ} {A : Type ℓ} {B : Type κ} where
  continue-ok :
      (r : Result A) (f : A → Session B) (db : Db) (b : B)
      → (continue r f db).0 ≡ ok b
      → (a : A) × (r ≡ ok a) × (continue r f db ≡ f a db)
  continue-ok (ok a) f db b h = (a, refl, refl)
  continue-ok (err e) f db b h = absurd (cc)

  -- A block that returned went through its first action.
  pub >>=-ok :
      (m : Session A) (f : A → Session B) (db : Db) (b : B)
      → ((m >>= f) db).0 ≡ ok b
      → (a : A) × ((m db).0 ≡ ok a) × ((m >>= f) db ≡ f a (m db).1)
  >>=-ok m f db b h = continue-ok (m db).0 f (m db).1 b h

-- A predicate of the tables that an action keeps, whether it returns or raises.
pub record Keeps {ℓ} {A : Type ℓ} (P : Db → Type 0) (m : Session A) : Type ℓ where
  pub at : (db : Db) → P db → P (m db).1

module _ {ℓ} {A : Type ℓ} {P : Db → Type 0} where
  pub Keeps-lift : (r : Result A) → Keeps P (lift r)
  Keeps-lift r = record { at = λ db h. h }

  pub Keeps-pure : (a : A) → Keeps P (pure a)
  Keeps-pure a = record { at = λ db h. h }

  pub Keeps-gets : (f : Db → A) → Keeps P (gets f)
  Keeps-gets f = record { at = λ db h. h }

  -- Whether the request commits, rolls back or opens no session.
  pub Keeps-with_db_session :
      (initialised commits : Bool) (handler : Session A)
      → Keeps P handler
      → Keeps P (with_db_session initialised commits handler)
  unfolding with_db_session
  Keeps-with_db_session false commits handler k = record { at = λ db h. h }
  Keeps-with_db_session true commits handler k = record {
    at = λ db h. finish_keeps commits db (handler db).0 (handler db).1 h (k.at db h);
  }
    where
      finish_keeps :
          (c : Bool) (before : Db) (r : Result A) (after : Db)
          → P before
          → P after
          → P (finish c before r after).1
      finish_keeps true before (ok a) after p q = q
      finish_keeps false before (ok a) after p q = p
      finish_keeps true before (err e) after p q = p
      finish_keeps false before (err e) after p q = p

module _ {ℓ κ} {A : Type ℓ} {B : Type κ} {P : Db → Type 0} where
  continue_keeps :
      (r : Result A) (f : A → Session B) (db : Db)
      → P db
      → ((a : A) → Keeps P (f a))
      → P (continue r f db).1
  continue_keeps (ok a) f db p k = (k a).at db p
  continue_keeps (err e) f db p k = p

  pub Keeps-bind :
      (m : Session A) (f : A → Session B)
      → Keeps P m
      → ((a : A) → Keeps P (f a))
      → Keeps P (m >>= f)
  Keeps-bind m f km kf = record { at = λ db p. continue_keeps (m db).0 f (m db).1 (km.at db p) kf }

pub ruleset keeps_rules = (Keeps-lift, Keeps-pure, Keeps-gets, Keeps-bind, Keeps-with_db_session)

-- A handler that returned, in a session whose commit the database accepts.
pub with_db_session-ok {ℓ} :
    {A : Type ℓ} (initialised commits : Bool) (handler : Session A) (db : Db) (a : A)
    → (with_db_session initialised commits handler db).0 ≡ ok a
    → commits ≡ true
    → (initialised ≡ true)
      × ((handler db).0 ≡ ok a)
      × ((with_db_session initialised commits handler db).1 ≡ (handler db).1)
unfolding with_db_session
with_db_session-ok {A} false commits handler db a h c = absurd (cc)
with_db_session-ok {A} true false handler db a h c = absurd (cc)
with_db_session-ok {A} true true handler db a h c =
    (refl, (committed (handler db).0 h).0, (committed (handler db).0 h).1)
  where
    committed :
        (r : Result A)
        → (finish true db r (handler db).1).0 ≡ ok a
        → (r ≡ ok a) × ((finish true db r (handler db).1).1 ≡ (handler db).1)
    committed (ok x) e = (e, refl)
    committed (err x) e = absurd (cc)
