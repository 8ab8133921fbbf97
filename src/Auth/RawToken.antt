-- ===== src/Auth/RawToken.antt =====
-- The text of a refresh token, `<token_uuid_hex>.<base64url_secret>`: the f-string of
-- mint_refresh_token and _parse_raw_token (meritmolt/auth/tokens.py).
pub mod Roundtrip
use meritmolt.Prelude.{
  ℕ, zero, suc, ◌+◌, ◌-◌, ◌*◌, ◌/◌, ◌%◌, Bool, true, ◌&&◌, ◌||◌, Option, none, some, [], ◌∷◌, ◌++◌,
  length, ltb, leb, ◌==◌, if◌then◌else◌,
}
use meritmolt.Auth.Tables.{Text, Bytes}
use meritmolt.Auth.Base64.{base64url_encode, base64url_decode}

abbrev hex_digit : ℕ → ℕ
hex_digit v = if ltb v 10 then v + 48 else v + 87

abbrev is_hex : ℕ → Bool
is_hex c = (leb 48 c && leb c 57) || ((leb 97 c && leb c 102) || (leb 65 c && leb c 70))

abbrev hex_value : ℕ → ℕ
hex_value c = if leb c 57 then c - 48 else if leb c 70 then c - 55 else c - 87

unfoldable pub hex_digits : ℕ → ℕ → Text
hex_digits zero n = []
hex_digits (suc k) n = hex_digits k (n / 16) ++ hex_digit (n % 16) ∷ []

all_hex : Text → Bool
all_hex [] = true
all_hex (c ∷ rest) = is_hex c && all_hex rest

hex_number : ℕ → Text → ℕ
hex_number acc [] = acc
hex_number acc (c ∷ rest) = hex_number (acc * 16 + hex_value c) rest

-- `UUID.hex`.
unfoldable pub uuid_hex : ℕ → Text
uuid_hex n = hex_digits 32 n

-- `uuid.UUID(hex=text)`. `loose` is what it makes of a text that is not 32 hexadecimal digits (it
-- removes braces, hyphens and `urn:uuid:`, and lets `int` read the rest); `none` is ValueError.
unfoldable pub parse_uuid : (Text → Option ℕ) → Text → Option ℕ
unfolding all_hex hex_number
parse_uuid loose text =
    if (length text == 32) && all_hex text then some (hex_number 0 text) else loose text

-- `raw_token.split(".", 1)`, and `none` if there is no dot.
unfoldable pub split_dot : Text → Option (Text × Text)
split_dot [] = none
split_dot (c ∷ rest) =
    let found = split_dot rest in
    if c == 46 then some ([], rest) else elim found [ none ↦ none | some (a, b) ↦ some (c ∷ a, b) ]

abbrev long_enough : ℕ → Option Bytes → Option (ℕ × Bytes)
long_enough token_id none = none
long_enough token_id (some secret) =
    if ltb (length secret) 32 then none else some (token_id, secret)

abbrev parse_parts : Option ℕ → Text → Option (ℕ × Bytes)
parse_parts none rest = none
parse_parts (some token_id) rest = long_enough token_id (base64url_decode rest)

abbrev parse_split : (Text → Option ℕ) → Option (Text × Text) → Option (ℕ × Bytes)
parse_split loose none = none
parse_split loose (some (prefix, rest)) = parse_parts (parse_uuid loose prefix) rest

unfoldable pub parse_raw_token : (Text → Option ℕ) → Text → Option (ℕ × Bytes)
parse_raw_token loose raw_token = parse_split loose (split_dot raw_token)

-- `f"{token_id.hex}.{_base64url_encode(secret)}"`.
unfoldable pub raw_token : ℕ → Bytes → Text
raw_token token_id secret = uuid_hex token_id ++ 46 ∷ base64url_encode secret
