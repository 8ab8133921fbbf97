-- ===== src/Auth/Jwt/Signed.antt =====
-- An access token that create_access_token signed (meritmolt/auth/jwt.py), presented to
-- get_current_agent (meritmolt/auth/dependencies.py).
use meritmolt.Prelude.{ℕ, ◌<◌, ◌≤◌, ◌≡◌, refl, String, some, ◌∷◌, Among}
use meritmolt.Text.{Text}
use meritmolt.Errors.{ok}
use meritmolt.Config.{Settings, Keys}
use meritmolt.Json.{text}
use meritmolt.Auth.Tables.{MmAgent}
use meritmolt.Auth.Jwt.{
  Claims, header, DecodeOptions, payload, JwtLibrary, algorithm, claims_of, sign,
  create_access_token,
}

-- What PyJWT documents of a token that was signed with a private key, for the public key of the pair, when
-- it is decoded at `clock`: the header has the kid, and the claims are accepted when the algorithm is
-- allowed, the audience and the issuer are those asked for, and the clock is from nbf on and before exp.
pub record Verifies (jwt : JwtLibrary) (kid private public : String) (clock : ℕ) : Type 0 where
  pub has_kid :
      (claims : Claims) (alg : String)
      → jwt.unverified_header (jwt.encode claims private alg kid) ≡ header (some kid)
  pub accepts :
      (claims : Claims) (alg : String) (options : DecodeOptions) (n : ℕ)
      → claims.sub ≡ jwt.uuid_str n
      → Among alg options.algorithms
      → claims.aud ≡ options.audience
      → claims.iss ≡ options.issuer
      → claims.nbf ≤ clock
      → clock < claims.exp
      → jwt.decode (jwt.encode claims private alg kid) public options ≡ payload (text claims.sub)

signed :
    (jwt : JwtLibrary) (settings : Settings) (kid private : String) (keys : Keys) (agent : MmAgent)
    (now jti : ℕ)
    → settings.mm_jwt_private_keys ≡ (kid, private) ∷ keys
    → create_access_token jwt settings agent now jti
      ≡ ok (jwt.encode (claims_of jwt settings agent now jti) private algorithm kid)
unfolding create_access_token sign
signed jwt settings kid private keys agent now jti first = rw first refl
