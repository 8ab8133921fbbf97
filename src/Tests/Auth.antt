-- ===== src/Tests/Auth.antt =====
-- The refresh tokens, the endpoints and the identity check, on concrete requests
-- (meritmolt/auth).
use meritmolt.Prelude.{
  ap, ℕ, suc, ◌≡◌, refl, arith, true, none, some, List, [], ◌∷◌, ◌+◌, ◌≤◌, count_if, find_if,
}
use meritmolt.Text.{Text, codes}
use meritmolt.Errors.{ok, err}
use meritmolt.Retrying.{plain_retrying}
use meritmolt.Auth.Tables.{Db, is_active, is_unrevoked, KeysDiffer, has_id}
use meritmolt.Auth.Session.{with_db_session}
use meritmolt.Auth.RawToken.{raw_token, parse_raw_token}
use meritmolt.Auth.RawToken.Roundtrip.{parse-raw_token}
use meritmolt.Auth.Base64.{base64url_encode, base64url_decode}
use meritmolt.Auth.Base64.Roundtrip.{decode-encode}
use meritmolt.Auth.Tokens.{
  mint_refresh_token, rotate_refresh_token, rotate_parsed, rotate_found, rotate_row, make_room,
  revoke, revoke_row, insert_token, new_row, oldest, verify_secret, token_reused,
}
use meritmolt.Auth.Tokens.Limit.{mint-limit, mint_over_limit}
use meritmolt.Auth.Tokens.Spent.{is_spent}
use meritmolt.Auth.Tokens.Fresh.{mint_then_rotate}
use meritmolt.Auth.Moltbook.{verify_identity, verify_once, to_result, unreachable}
use meritmolt.Auth.Moltbook.Behaviour.{verify_identity_first}
use meritmolt.Auth.Jwt.{JwtLibrary, header, payload, create_access_token}
use meritmolt.Json.{text}
use meritmolt.Auth.Router.{
  refresh, refresh_body, logout, respond, run, Backend, AuthRequest, TokenResponse, refresh_request,
}
use meritmolt.Auth.Router.Revocation.{refresh_once, reuse_rolled_back, logged_out_refused}
use meritmolt.Tests.Fixtures.{
  some_lib, some_settings, some_world, up, ones, ones-bytes, draw_of, nobody, readings, stamp, ann,
  token_row, db_with, letters, unary, letters-unary,
}

abbrev one_token : Db
one_token = db_with (token_row 5 100 none ∷ [])

-- The raw token of row 5.
abbrev raw_five : Text
raw_five = raw_token 5 (ones 32)

parsed_five : parse_raw_token (λ t. none) raw_five ≡ some (5, ones 32)
parsed_five = parse-raw_token (λ t. none) 5 (ones 32) (omega arith) (ones-bytes 32) (omega arith)

abbrev new_reply : TokenResponse
new_reply = record {
  access_token = codes "k1";
  refresh_token = raw_token 6 (ones 32);
  token_type = "bearer";
  expires_in = 900;
}

refreshed :
    (refresh some_world up raw_five nobody (readings 10) (draw_of 10 6) (stamp 10) one_token).0
    ≡ ok new_reply
unfolding refresh with_db_session refresh_body respond rotate_refresh_token rotate_parsed
    rotate_found rotate_row verify_secret mint_refresh_token make_room revoke revoke_row
    insert_token new_row oldest create_access_token
refreshed = rw parsed_five refl

abbrev history : List (Backend × AuthRequest)
history =
    (up, refresh_request (raw_token 6 (ones 32)) nobody (readings 20) (draw_of 20 8) (stamp 20))
    ∷ []

refresh_once_example :
    (refresh some_world up raw_five nobody (readings 30) (draw_of 30 11) (stamp 30) (
      run some_world history
        (refresh some_world up raw_five nobody
          (readings 10)
          (draw_of 10 6)
          (stamp 10)
          one_token).1)).0
    ≡ err token_reused
refresh_once_example =
    refresh_once some_world up raw_five nobody (readings 10) (draw_of 10 6) (stamp 10) one_token
      new_reply refreshed refl history up nobody (readings 30) (draw_of 30 11) (stamp 30) refl

abbrev spent_token : Db
spent_token = db_with (token_row 5 100 (some 3) ∷ token_row 6 100 none ∷ [])

five_is_spent : is_spent 5 spent_token.tokens ≡ true
unfolding is_spent
five_is_spent = refl

reuse_rolled_back_example :
    refresh some_world up raw_five nobody (readings 10) (draw_of 10 8) (stamp 10) spent_token
    ≡ (err token_reused, spent_token)
reuse_rolled_back_example =
    reuse_rolled_back some_world up raw_five 5 (ones 32) nobody (readings 10) (draw_of 10 8)
      (stamp 10) spent_token refl parsed_five five_is_spent

minted_six :
    (mint_refresh_token some_lib some_settings 7 nobody none (draw_of 10 6) one_token).0
    ≡ ok (raw_token 6 (ones 32))
unfolding mint_refresh_token make_room revoke revoke_row insert_token new_row oldest
minted_six = refl

eight_is_free :
    find_if
      (has_id 8)
      (mint_refresh_token some_lib some_settings 7 nobody none (draw_of 10 6) one_token).1.tokens
    ≡ none
unfolding mint_refresh_token make_room revoke revoke_row insert_token new_row oldest
eight_is_free = refl

mint_then_rotate_example :
    (rotate_refresh_token some_lib some_settings nobody
      (readings 20)
      (draw_of 20 8)
      (raw_token 6 (ones 32))
      (mint_refresh_token some_lib some_settings 7 nobody none (draw_of 10 6) one_token).1).0
    ≡ ok (raw_token 8 (ones 32), ann)
mint_then_rotate_example =
    mint_then_rotate some_lib some_settings 7 nobody none (draw_of 10 6) one_token
      (raw_token 6 (ones 32)) ann some_settings nobody (readings 20) (draw_of 20 8)
      (λ salt secret. refl) (omega arith) (ones-bytes 32) (omega arith) refl minted_six
      eight_is_free (omega arith)

parse-raw_token_example : parse_raw_token (λ t. none) (raw_token 5 (ones 32)) ≡ some (5, ones 32)
parse-raw_token_example =
    parse-raw_token (λ t. none) 5 (ones 32) (omega arith) (ones-bytes 32) (omega arith)

abbrev two_tokens : Db
two_tokens = db_with (token_row 1 100 none ∷ token_row 2 100 none ∷ [])

mint-limit_example :
    count_if
      (is_active 7 10)
      (mint_refresh_token some_lib some_settings 7 nobody none (draw_of 10 6) two_tokens).1.tokens
    ≤ 2
mint-limit_example =
    mint-limit some_lib some_settings 7 nobody none (draw_of 10 6) two_tokens (omega arith)
      ((λ _. omega arith), ((λ _. omega arith), tt)) (omega arith)

-- The oldest unrevoked token has expired.
abbrev expired_first : Db
expired_first = db_with (token_row 1 5 none ∷ token_row 2 100 none ∷ token_row 3 100 none ∷ [])

expired_first_keys : KeysDiffer expired_first.tokens
expired_first_keys = (
  ((λ e. absurd (omega arith)), ((λ e. absurd (omega arith)), tt)),
  (((λ e. absurd (omega arith)), tt), (tt, tt)),
)

first_expired : oldest (is_unrevoked 7) expired_first.tokens ≡ some (token_row 1 5 none)
unfolding oldest
first_expired = refl

minted_over :
    (mint_refresh_token some_lib some_settings 7 nobody none (draw_of 10 6) expired_first).0
    ≡ ok (raw_token 6 (ones 32))
unfolding mint_refresh_token make_room revoke revoke_row insert_token new_row oldest
minted_over = refl

mint_over_limit_example :
    count_if
      (is_active 7 10)
      (mint_refresh_token some_lib some_settings 7 nobody none
        (draw_of 10 6)
        expired_first).1.tokens
    ≡ 2 + 1
mint_over_limit_example =
    mint_over_limit some_lib some_settings 7 nobody none (draw_of 10 6) expired_first
      (token_row 1 5 none) (raw_token 6 (ones 32)) expired_first_keys first_expired (omega arith)
      (omega arith) (omega arith) minted_over

verify_identity_first_example :
    verify_identity plain_retrying (λ j. "json") some_settings (λ k. unreachable)
    ≡ to_result (verify_once (λ j. "json") some_settings unreachable)
verify_identity_first_example =
    verify_identity_first plain_retrying (λ j. "json") some_settings (λ k. unreachable)

decode-encode_example :
    base64url_decode (base64url_encode (255 ∷ 0 ∷ 7 ∷ 1 ∷ [])) ≡ some (255 ∷ 0 ∷ 7 ∷ 1 ∷ [])
decode-encode_example =
    decode-encode (255 ∷ 0 ∷ 7 ∷ 1 ∷ [])
      (omega arith, (omega arith, (omega arith, (omega arith, tt))))

-- A token of the same id with another secret is refused as well.
logged_out_refused_example :
    (refresh some_world up
      (raw_token 5 (2 ∷ ones 31))
      nobody
      (readings 30)
      (draw_of 30 11)
      (stamp 30)
      (run some_world history (logout some_world up raw_five 10 one_token).1)).0
    ≡ err token_reused
logged_out_refused_example =
    logged_out_refused some_world up raw_five (raw_token 5 (2 ∷ ones 31)) 5 (ones 32) (2 ∷ ones 31)
      10 one_token (token_row 5 100 none) parsed_five
      (parse-raw_token (λ t. none) 5 (2 ∷ ones 31) (omega arith) (omega arith, ones-bytes 31)
        (omega arith))
      refl refl refl history up nobody (readings 30) (draw_of 30 11) (stamp 30) refl

-- A library whose tokens are as long as the number in their subject.
abbrev number_of : Text → ℕ
number_of [] = 0
number_of (c ∷ token) = suc (number_of token)

abbrev signing_jwt : JwtLibrary
signing_jwt = record {
  encode = λ claims pem algorithm kid. ones (letters claims.sub);
  unverified_header = λ token. header (some "k1");
  decode = λ token pem options. payload (text (unary (number_of token)));
  uuid_str = unary;
  read_uuid = λ s. some (letters s);
  read-uuid_str = λ n. ap some (letters-unary n);
}
