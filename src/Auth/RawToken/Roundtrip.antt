-- ===== src/Auth/RawToken/Roundtrip.antt =====
-- What mint_refresh_token prints, _parse_raw_token reads back.
use meritmolt.Prelude.{
  ℕ, zero, suc, ◌+◌, ◌*◌, ◌/◌, ◌%◌, ◌^◌, ◌<◌, ◌≤◌, ◌≡◌, refl, ◌∙◌, ap, true, Option, some, [], ◌∷◌,
  ◌++◌, arith, length, length-append, All,
}
use native.Mathlib.Nat.{pow-suc}
use meritmolt.Auth.Tables.{Text, Bytes}
use meritmolt.Auth.Base64.{base64url_encode}
use meritmolt.Auth.Base64.Roundtrip.{IsByte, decode-encode}
use meritmolt.Auth.RawToken.{
  hex_digit, hex_value, hex_digits, all_hex, hex_number, uuid_hex, parse_uuid, split_dot,
  parse_raw_token, raw_token,
}

length-hex_digits : (k n : ℕ) → length (hex_digits k n) ≡ k
unfolding hex_digits
length-hex_digits zero n = refl
length-hex_digits (suc k) n = omega (
  arith,
  length-append (hex_digits k (n / 16)) (hex_digit (n % 16) ∷ []),
  length-hex_digits k (n / 16),
)

all_hex-append : (xs ys : Text) → all_hex xs ≡ true → all_hex ys ≡ true → all_hex (xs ++ ys) ≡ true
unfolding all_hex
all_hex-append [] ys h k = k
all_hex-append (x ∷ xs) ys h k = ground (arith, all_hex-append xs ys)

is_hex-hex_digit : (v : ℕ) → v < 16 → all_hex (hex_digit v ∷ []) ≡ true
unfolding all_hex
is_hex-hex_digit v h = ground arith

all_hex-hex_digits : (k n : ℕ) → all_hex (hex_digits k n) ≡ true
unfolding hex_digits
all_hex-hex_digits zero n = unfold all_hex in refl
all_hex-hex_digits (suc k) n =
    all_hex-append (hex_digits k (n / 16)) (hex_digit (n % 16) ∷ []) (all_hex-hex_digits k (n / 16))
      (is_hex-hex_digit (n % 16) (omega arith))

hex_number-append :
    (acc c : ℕ) (xs : Text) → hex_number acc (xs ++ c ∷ []) ≡ hex_number acc xs * 16 + hex_value c
unfolding hex_number
hex_number-append acc c [] = refl
hex_number-append acc c (x ∷ xs) = hex_number-append (acc * 16 + hex_value x) c xs

hex_value-hex_digit : (v : ℕ) → v < 16 → hex_value (hex_digit v) ≡ v
hex_value-hex_digit v h = ground arith

hex_number-hex_digits : (k n : ℕ) → n < 16 ^ k → hex_number 0 (hex_digits k n) ≡ n
unfolding hex_digits
hex_number-hex_digits zero n h = unfold hex_number in omega arith
hex_number-hex_digits (suc k) n h =
    hex_number-append 0 (hex_digit (n % 16)) (hex_digits k (n / 16))
    ∙ omega (
      arith,
      hex_number-hex_digits k (n / 16) (omega (arith, pow-suc 16 k)),
      hex_value-hex_digit (n % 16) (omega arith),
    )

parse_uuid-hex :
    (loose : Text → Option ℕ) (n : ℕ) → n < 2 ^ 128 → parse_uuid loose (uuid_hex n) ≡ some n
unfolding uuid_hex parse_uuid
parse_uuid-hex loose n h =
    rw (length-hex_digits 32 n, all_hex-hex_digits 32 n) (ap some (hex_number-hex_digits 32 n h))

split_dot-hex : (xs rest : Text) → all_hex xs ≡ true → split_dot (xs ++ 46 ∷ rest) ≡ some (xs, rest)
unfolding split_dot all_hex
split_dot-hex [] rest h = refl
split_dot-hex (c ∷ xs) rest h = ground (arith, split_dot-hex xs rest)

-- A minted token is read back as the row's id and the secret, for every id below 2 ^ 128 and every
-- secret of at least 32 bytes, whatever uuid.UUID makes of other texts.
pub parse-raw_token :
    (loose : Text → Option ℕ) (token_id : ℕ) (secret : Bytes)
    → token_id < 2 ^ 128
    → All IsByte secret
    → 32 ≤ length secret
    → parse_raw_token loose (raw_token token_id secret) ≡ some (token_id, secret)
unfolding parse_raw_token raw_token
parse-raw_token loose token_id secret h bytes long =
    rw
      (
        split_dot-hex (uuid_hex token_id) (base64url_encode secret)
            (unfold uuid_hex in all_hex-hex_digits 32 token_id),
        parse_uuid-hex loose token_id h,
        decode-encode secret bytes,
      )
      (ground arith)
