-- ===== src/Auth/Jwt.antt =====
-- JWT access tokens: create_access_token and decode_access_token (meritmolt/auth/jwt.py), and
-- get_current_agent (meritmolt/auth/dependencies.py).
pub mod Signed
use meritmolt.Prelude.{
  ℕ, ◌+◌, String, Option, none, some, List, [], ◌∷◌, ◌==◌, find_if, str_eq, if◌then◌else◌, ◌≡◌,
}
use meritmolt.Text.{Text, codes, has_prefix, drop_prefix, strip, is_empty}
use meritmolt.Errors.{Failure, http_exception, unhandled, Result, ok, err, or_raise, ◌>>=◌}
use meritmolt.Config.{Settings, Keys, lookup_key}
use meritmolt.Json.{Json, text, null, boolean, number, array, object}
use meritmolt.Auth.Tables.{seconds, MmAgent, Db}

pub record Claims : Type 0 where
  pub iss : String
  pub aud : String
  pub sub : String
  pub exp : ℕ
  pub iat : ℕ
  pub nbf : ℕ
  pub jti : ℕ
  pub mb_name : String
  pub mb_agent_id : String

-- What `jwt.get_unverified_header` comes to: DecodeError, another PyJWTError, or a header, with its
-- `kid` if it has one.
pub data Header : Type 0 where
  undecodable unusable : Header
  header : Option String → Header

-- The keyword arguments of `jwt.decode`.
pub record DecodeOptions : Type 0 where
  pub algorithms : List String
  pub audience : String
  pub issuer : String
  pub require : List String

-- What `jwt.decode` comes to: ExpiredSignatureError, another InvalidTokenError, another PyJWTError, or the claim `sub`.
pub data Decoded : Type 0 where
  expired invalid failed : Decoded
  payload : Json → Decoded

-- PyJWT, with UUIDs as the tokens print them. `encode` takes the key, the algorithm and the kid.
pub record JwtLibrary : Type 0 where
  pub encode : Claims → String → String → String → Text
  pub unverified_header : Text → Header
  pub decode : Text → String → DecodeOptions → Decoded
  pub uuid_str : ℕ → String
  pub read_uuid : String → Option ℕ
  pub read-uuid_str : (n : ℕ) → read_uuid (uuid_str n) ≡ some n

abbrev pub issuer : String
issuer = "meritmolt"

abbrev pub audience : String
audience = "meritmolt-api"

abbrev pub algorithm : String
algorithm = "ES256"

abbrev pub decode_options : DecodeOptions
decode_options = record {
  algorithms = algorithm ∷ [];
  audience = audience;
  issuer = issuer;
  require = "exp" ∷ "iat" ∷ "nbf" ∷ "sub" ∷ [];
}

unfoldable pub claims_of : JwtLibrary → Settings → MmAgent → ℕ → ℕ → Claims
claims_of jwt settings agent now jti = record {
  iss = issuer;
  aud = audience;
  sub = jwt.uuid_str agent.id;
  exp = now + seconds settings.mm_access_ttl_seconds;
  iat = now;
  nbf = now;
  jti = jti;
  mb_name = agent.mb_name;
  mb_agent_id = agent.mb_agent_id;
}

sign : JwtLibrary → Keys → Claims → Result Text
sign jwt [] claims = err unhandled
sign jwt ((kid, pem) ∷ keys) claims = ok (jwt.encode claims pem algorithm kid)

-- `now` is the clock, `jti` the uuid4. Without private keys the ValueError ends in a 500.
unfoldable pub create_access_token : JwtLibrary → Settings → MmAgent → ℕ → ℕ → Result Text
unfolding sign
create_access_token jwt settings agent now jti =
    sign jwt settings.mm_jwt_private_keys (claims_of jwt settings agent now jti)

-- `if not kid or kid not in keys`, else `keys[kid]`.
unfoldable pub key_of : Keys → Option String → Option String
key_of keys none = none
key_of keys (some kid) = if str_eq kid "" then none else lookup_key kid keys

unfoldable pub header_key : Keys → Header → Result String
header_key keys undecodable = err (http_exception 401 "Invalid token format")
header_key keys unusable = err unhandled
header_key keys (header kid) = or_raise (key_of keys kid) (http_exception 401 "Invalid token kid")

unfoldable pub decoded_claims : Decoded → Result Json
decoded_claims expired = err (http_exception 401 "Token expired")
decoded_claims invalid = err (http_exception 401 "Invalid token")
decoded_claims failed = err unhandled
decoded_claims (payload sub) = ok sub

-- decode_access_token, as the claim `sub` of its result; a claim that is missing is null.
unfoldable pub decode_access_token : JwtLibrary → Settings → Text → Result Json
decode_access_token jwt settings token = elim settings.mm_jwt_public_keys [
  | [] ↦ err (http_exception 501 "JWT public keys not configured")
  | key ∷ keys ↦ do
    pem ← header_key (key ∷ keys) (jwt.unverified_header token)
    decoded_claims (jwt.decode token pem decode_options)
]

abbrev invalid_claims : Failure
invalid_claims = http_exception 401 "Invalid token claims"

-- `sub` must be a text, not empty, and a UUID.
unfoldable pub read_sub : JwtLibrary → Json → Result ℕ
read_sub jwt (text sub) =
    if str_eq sub "" then err invalid_claims else or_raise (jwt.read_uuid sub) invalid_claims
read_sub jwt null = err invalid_claims
read_sub jwt (boolean b) = err invalid_claims
read_sub jwt (number n) = err invalid_claims
read_sub jwt (array xs) = err invalid_claims
read_sub jwt (object fs) = err invalid_claims

abbrev pub bearer_prefix : Text
bearer_prefix = codes "Bearer "

-- The token of the Authorization header.
unfoldable pub bearer_token : Option Text → Result Text
bearer_token none = err (http_exception 401 "Missing or invalid Authorization")
bearer_token (some authorization) =
    if has_prefix bearer_prefix authorization
    then (let token = strip (drop_prefix bearer_prefix authorization) in
        if is_empty token then err (http_exception 401 "Missing Bearer token") else ok token)
    else err (http_exception 401 "Missing or invalid Authorization")

-- get_current_agent, as a function of the tables that the request's session reads.
unfoldable pub get_current_agent : JwtLibrary → Settings → Option Text → Db → Result MmAgent
get_current_agent jwt settings authorization db = do
  token ← bearer_token authorization
  sub ← decode_access_token jwt settings token
  agent_id ← read_sub jwt sub
  or_raise (find_if (λ (a : MmAgent). a.id == agent_id) db.agents)
      (http_exception 401 "Agent not found")
