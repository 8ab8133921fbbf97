-- ===== src/RateLimit/Client/Agreement.antt =====
-- The rate limiter's view of a token against that of the endpoints: extract_jwt_sub
-- (meritmolt/ratelimit.py) and decode_access_token (meritmolt/auth/jwt.py).
use meritmolt.Prelude.{String, ◌≡◌, ◌≢◌, refl, Option, none, some, [], ◌∷◌}
use meritmolt.Text.{Text}
use meritmolt.Errors.{Result, ok, err, unhandled, or_raise, ◌>>=◌, http_exception}
use meritmolt.Config.{Settings, Keys}
use meritmolt.Json.{Json}
use meritmolt.Auth.Jwt.{
  Header, undecodable, unusable, header, Decoded, expired, invalid, failed, payload, key_of,
  header_key, decoded_claims, decode_access_token, decode_options,
}
use meritmolt.RateLimit.Client.{
  KeyLibrary, sub_text, payload_sub, extract_jwt_sub, sub_of_header, decode_with,
}

-- The subject of a token that decodes, and none for a token that is refused.
abbrev pub subject_of : KeyLibrary → Result Json → Result (Option Text)
subject_of lib (ok sub) = ok (sub_text lib sub)
subject_of lib (err e) = ok none

payload_agrees :
    (lib : KeyLibrary) (d : Decoded) → ok (payload_sub lib d) ≡ subject_of lib (decoded_claims d)
unfolding payload_sub decoded_claims
payload_agrees lib expired = refl
payload_agrees lib invalid = refl
payload_agrees lib failed = refl
payload_agrees lib (payload sub) = refl

key_agrees :
    (lib : KeyLibrary) (token : Text) (o : Option String)
    → ok (decode_with lib token o)
      ≡ subject_of lib (
          or_raise o (http_exception 401 "Invalid token kid") >>= λ pem.
          decoded_claims (lib.jwt.decode token pem decode_options))
key_agrees lib token none = refl
key_agrees lib token (some pem) = payload_agrees lib (lib.jwt.decode token pem decode_options)

header_agrees :
    (lib : KeyLibrary) (keys : Keys) (token : Text) (h : Header)
    → h ≢ unusable
    → sub_of_header lib keys token h
      ≡ subject_of lib
          (header_key keys h >>= λ pem. decoded_claims (lib.jwt.decode token pem decode_options))
unfolding header_key
header_agrees lib keys token undecodable usable = refl
header_agrees lib keys token unusable usable = absurd (usable refl)
header_agrees lib keys token (header kid) usable = key_agrees lib token (key_of keys kid)

-- The rate limiter takes a token for a subject exactly when the endpoints' decode_access_token
-- accepts it, and then for its `sub`, unless get_unverified_header raises an error other than
-- DecodeError.
pub extract_jwt_sub-agrees :
    (lib : KeyLibrary) (settings : Settings) (token : Text)
    → lib.jwt.unverified_header token ≢ unusable
    → extract_jwt_sub lib settings token
      ≡ subject_of lib (decode_access_token lib.jwt settings token)
unfolding extract_jwt_sub decode_access_token
extract_jwt_sub-agrees lib settings token usable = by_keys settings.mm_jwt_public_keys
  where
    by_keys :
        (keys : Keys)
        → (elim keys [
          | [] ↦ ok none
          | key ∷ rest ↦ sub_of_header lib (key ∷ rest) token (lib.jwt.unverified_header token)
        ])
          ≡ subject_of lib (elim keys [
            | [] ↦ err (http_exception 501 "JWT public keys not configured")
            | key ∷ rest ↦ do
              pem ← header_key (key ∷ rest) (lib.jwt.unverified_header token)
              decoded_claims (lib.jwt.decode token pem decode_options)
          ])
    by_keys [] = refl
    by_keys (key ∷ rest) =
        header_agrees lib (key ∷ rest) token (lib.jwt.unverified_header token) usable

-- "Does not raise" of its docstring fails: with a header that PyJWT refuses with an error other
-- than DecodeError, and any key configured, the error leaves extract_jwt_sub.
pub extract_jwt_sub_raises :
    (lib : KeyLibrary) (settings : Settings) (token : Text) (key : String × String) (keys : Keys)
    → settings.mm_jwt_public_keys ≡ key ∷ keys
    → lib.jwt.unverified_header token ≡ unusable
    → extract_jwt_sub lib settings token ≡ err unhandled
unfolding extract_jwt_sub
extract_jwt_sub_raises lib settings token key keys e h = rw (e, h) refl
