-- ===== src/RateLimit/Client.antt =====
-- The key of a request: extract_jwt_sub, the client's address and the bearer token
-- (meritmolt/ratelimit.py).
pub mod Agreement
use meritmolt.Prelude.{ℕ, String, Bool, true, Option, none, some, List, [], ◌∷◌, if◌then◌else◌}
use meritmolt.Text.{
  Text, Bytes, codes, same_text, has_prefix, drop_prefix, strip, lower_ascii, lower_latin,
  before_comma, is_empty,
}
use meritmolt.Errors.{Result, ok, err, unhandled}
use meritmolt.Config.{Settings, Keys}
use meritmolt.Json.{Json, text, null, boolean, number, array, object}
use meritmolt.Auth.Jwt.{
  JwtLibrary, DecodeOptions, Header, undecodable, unusable, header, Decoded, expired, invalid,
  failed, payload, key_of,
}

-- The part of an ASGI scope that the middlewares read. `client` is the host, where there is one.
pub record Scope : Type 0 where
  pub is_http : Bool
  pub path : Text
  pub headers : List (Bytes × Bytes)
  pub client : Option Text

-- The libraries: PyJWT, `str` of a claim that is not a text, and ipaddress.ip_address.
pub record KeyLibrary : Type 0 where
  pub jwt : JwtLibrary
  pub render : Json → String
  pub is_ip_address : Text → Bool

-- `str(sub)`, or None for a claim that is missing or null.
unfoldable pub sub_text : KeyLibrary → Json → Option Text
sub_text lib null = none
sub_text lib (text sub) = some (codes sub)
sub_text lib (boolean b) = some (codes (lib.render (boolean b)))
sub_text lib (number n) = some (codes (lib.render (number n)))
sub_text lib (array xs) = some (codes (lib.render (array xs)))
sub_text lib (object fs) = some (codes (lib.render (object fs)))

unfoldable pub payload_sub : KeyLibrary → Decoded → Option Text
payload_sub lib expired = none
payload_sub lib invalid = none
payload_sub lib failed = none
payload_sub lib (payload sub) = sub_text lib sub

-- `_JWT_ISSUER`, `_JWT_AUDIENCE` and `_JWT_ALGORITHM`.
abbrev pub jwt_issuer : String
jwt_issuer = "meritmolt"

abbrev pub jwt_audience : String
jwt_audience = "meritmolt-api"

abbrev pub jwt_algorithm : String
jwt_algorithm = "ES256"

abbrev pub limiter_options : DecodeOptions
limiter_options = record {
  algorithms = jwt_algorithm ∷ [];
  audience = jwt_audience;
  issuer = jwt_issuer;
  require = "exp" ∷ "iat" ∷ "nbf" ∷ "sub" ∷ [];
}

abbrev decode_with : KeyLibrary → Text → Option String → Option Text
decode_with lib token none = none
decode_with lib token (some pem) = payload_sub lib (lib.jwt.decode token pem limiter_options)

-- Only DecodeError is caught around get_unverified_header: another PyJWTError leaves the function.
abbrev sub_of_header : KeyLibrary → Keys → Text → Header → Result (Option Text)
sub_of_header lib keys token undecodable = ok none
sub_of_header lib keys token unusable = err unhandled
sub_of_header lib keys token (header kid) = ok (decode_with lib token (key_of keys kid))

unfoldable pub extract_jwt_sub : KeyLibrary → Settings → Text → Result (Option Text)
extract_jwt_sub lib settings token = elim settings.mm_jwt_public_keys [
  | [] ↦ ok none
  | key ∷ keys ↦ sub_of_header lib (key ∷ keys) token (lib.jwt.unverified_header token)
]

-- The first header of a name, decoded from Latin-1 and stripped. Names are compared in lower case.
unfoldable pub find_header : Bytes → List (Bytes × Bytes) → Option Text
find_header name [] = none
find_header name ((raw_name, raw_value) ∷ headers) =
    if same_text (lower_ascii raw_name) name
    then some (strip raw_value)
    else find_header name headers

abbrev client_host : Option Text → Text
client_host none = codes "unknown"
client_host (some host) = host

abbrev forwarded_or : KeyLibrary → Text → Option Text → Text
forwarded_or lib fallback none = fallback
forwarded_or lib fallback (some xff) =
    if is_empty xff
    then fallback
    else let first = strip (before_comma xff) in if lib.is_ip_address first then first else fallback

-- `_extract_client_ip_from_scope`.
unfoldable pub client_ip : KeyLibrary → Scope → Text
client_ip lib scope =
    forwarded_or lib (client_host scope.client)
      (find_header (codes "x-forwarded-for") scope.headers)

abbrev bearer_value : Option Text → Option Text
bearer_value none = none
bearer_value (some value) =
    if has_prefix (codes "bearer ") (lower_latin value)
    then some (strip (drop_prefix (codes "bearer ") value))
    else none

-- `_get_bearer_token_from_scope`.
unfoldable pub bearer_from_scope : Scope → Option Text
bearer_from_scope scope = bearer_value (find_header (codes "authorization") scope.headers)
