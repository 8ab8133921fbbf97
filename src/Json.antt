-- ===== src/Json.antt =====
-- JSON values as Python reads them, for the bodies that MoltBook sends: `dict.get`, `or`, and the
-- truth of a value. Numbers are natural numbers here.
use meritmolt.Prelude.{
  ℕ, zero, suc, String, Bool, true, false, not, Option, none, some, str_eq, if◌then◌else◌,
}

mutual
  pub data Json : Type 0 where
    null : Json
    boolean : Bool → Json
    number : ℕ → Json
    text : String → Json
    array : Items → Json
    object : Fields → Json

  pub data Items : Type 0 where
    nil : Items
    cons : Json → Items → Items

  pub data Fields : Type 0 where
    end : Fields
    field : String → Json → Fields → Fields

-- Python's truth value.
unfoldable pub truthy : Json → Bool
truthy null = false
truthy (boolean b) = b
truthy (number zero) = false
truthy (number (suc n)) = true
truthy (text s) = not (str_eq s "")
truthy (array nil) = false
truthy (array (cons x xs)) = true
truthy (object end) = false
truthy (object (field k v fs)) = true

-- `a or b`.
infixr 30 ◌or◌
unfoldable pub ◌or◌ : Json → Json → Json
unfolding truthy
a or b = if truthy a then a else b

-- `fields.get(key)`, with None where the key is missing.
unfoldable pub get : String → Fields → Json
get key end = null
get key (field k v fs) = if str_eq k key then v else get key fs

-- `data.get(key)` of a body: what is not an object has no `get` and raises AttributeError (`none`).
unfoldable pub get? : String → Json → Option Json
unfolding get
get? key (object fs) = some (get key fs)
get? key null = none
get? key (boolean b) = none
get? key (number n) = none
get? key (text s) = none
get? key (array xs) = none

infixl 5 ◌>>=◌
abbrev pub ◌>>=◌ {ℓ κ} : {A : Type ℓ} {B : Type κ} → Option A → (A → Option B) → Option B
none >>= f = none
some a >>= f = f a
