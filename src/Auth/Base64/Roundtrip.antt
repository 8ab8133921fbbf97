-- ===== src/Auth/Base64/Roundtrip.antt =====
-- _base64url_decode undoes _base64url_encode (meritmolt/auth/tokens.py).
use meritmolt.Prelude.{
  ℕ, suc, ◌+◌, ◌*◌, ◌/◌, ◌%◌, ◌<◌, ◌≡◌, refl, ◌∙◌, false, true, some, [], ◌∷◌, ◌++◌, arith, length,
  All, ltb, ◌==◌,
}
use mathlib.Core.List.{append_assoc, append-nil}
use meritmolt.Auth.Tables.{Text, Bytes}
use meritmolt.Auth.Base64.{
  digit, digit_value, base64url_encode, base64url_decode, a2b_loop, padding, is_ascii,
}

digit_value-digit : (v : ℕ) → v < 64 → digit_value (digit v) ≡ v
unfolding digit digit_value
digit_value-digit v h = ground arith

digit-ne-pad : (v : ℕ) → (digit v == 61) ≡ false
unfolding digit
digit-ne-pad v = ground arith

digit-ascii : (v : ℕ) → ltb (digit v) 128 ≡ true
unfolding digit
digit-ascii v = ground arith

digit-in-alphabet : (v : ℕ) → v < 64 → (digit_value (digit v) == 64) ≡ false
digit-in-alphabet v h = rw (digit_value-digit v h) (ground arith)

module _ (v l p : ℕ) (out : Bytes) (rest : Text) (h : v < 64) where
  step_zero : a2b_loop 0 l p out (digit v ∷ rest) ≡ a2b_loop 1 v 0 out rest
  unfolding a2b_loop
  step_zero = rw (digit-ne-pad v, digit-in-alphabet v h, digit_value-digit v h)

  step_one :
      a2b_loop 1 l p out (digit v ∷ rest)
      ≡ a2b_loop 2 (v % 16) 0 (out ++ (l * 4 + v / 16) ∷ []) rest
  unfolding a2b_loop
  step_one = rw (digit-ne-pad v, digit-in-alphabet v h, digit_value-digit v h)

  step_two :
      a2b_loop 2 l p out (digit v ∷ rest) ≡ a2b_loop 3 (v % 4) 0 (out ++ (l * 16 + v / 4) ∷ []) rest
  unfolding a2b_loop
  step_two = rw (digit-ne-pad v, digit-in-alphabet v h, digit_value-digit v h)

  step_three : a2b_loop 3 l p out (digit v ∷ rest) ≡ a2b_loop 0 0 0 (out ++ (l * 64 + v) ∷ []) rest
  unfolding a2b_loop
  step_three = rw (digit-ne-pad v, digit-in-alphabet v h, digit_value-digit v h)

module _ (a b : ℕ) (ha : a < 256) (hb : b < 256) where
  first_byte : a / 4 * 4 + (a % 4 * 16 + b / 16) / 16 ≡ a
  first_byte = omega arith

  second_left : (a % 4 * 16 + b / 16) % 16 ≡ b / 16
  second_left = omega arith

  second_byte : (c : ℕ) → c < 256 → b / 16 * 16 + (b % 16 * 4 + c / 64) / 4 ≡ b
  second_byte c hc = omega arith

  third_left : (c : ℕ) → c < 256 → (b % 16 * 4 + c / 64) % 4 ≡ c / 64
  third_left c hc = omega arith

-- The state after the first two digits of a group.
two_digits :
    (a b l p : ℕ) (out : Bytes) (rest : Text)
    → a < 256
    → b < 256
    → a2b_loop 0 l p out (digit (a / 4) ∷ digit (a % 4 * 16 + b / 16) ∷ rest)
      ≡ a2b_loop 2 (b / 16) 0 (out ++ a ∷ []) rest
two_digits a b l p out rest ha hb =
    step_zero (a / 4) l p out (digit (a % 4 * 16 + b / 16) ∷ rest) (omega arith)
    ∙ step_one (a % 4 * 16 + b / 16) (a / 4) 0 out rest (omega arith)
    ∙ rw (first_byte a b ha hb, second_left a b ha hb)

three_digits :
    (a b c l p : ℕ) (out : Bytes) (rest : Text)
    → a < 256
    → b < 256
    → c < 256
    → a2b_loop 0 l p out
        (digit (a / 4) ∷ digit (a % 4 * 16 + b / 16) ∷ digit (b % 16 * 4 + c / 64) ∷ rest)
      ≡ a2b_loop 3 (c / 64) 0 ((out ++ a ∷ []) ++ b ∷ []) rest
three_digits a b c l p out rest ha hb hc =
    two_digits a b l p out (digit (b % 16 * 4 + c / 64) ∷ rest) ha hb
    ∙ step_two (b % 16 * 4 + c / 64) (b / 16) 0 (out ++ a ∷ []) rest (omega arith)
    ∙ rw (second_byte a b ha hb c hc, third_left a b ha hb c hc)

four_digits :
    (a b c l p : ℕ) (out : Bytes) (rest : Text)
    → a < 256
    → b < 256
    → c < 256
    → a2b_loop 0 l p out (
        digit (a / 4)
        ∷ digit (a % 4 * 16 + b / 16)
        ∷ digit (b % 16 * 4 + c / 64)
        ∷ digit (c % 64)
        ∷ rest)
      ≡ a2b_loop 0 0 0 (((out ++ a ∷ []) ++ b ∷ []) ++ c ∷ []) rest
four_digits a b c l p out rest ha hb hc =
    three_digits a b c l p out (digit (c % 64) ∷ rest) ha hb hc
    ∙ step_three (c % 64) (c / 64) 0 ((out ++ a ∷ []) ++ b ∷ []) rest (omega arith)
    ∙ rw (third_byte)
  where
    third_byte : c / 64 * 64 + c % 64 ≡ c
    third_byte = omega arith

padding-group : (n : ℕ) → padding (suc (suc (suc (suc n)))) ≡ padding n
unfolding padding
padding-group n = ground arith

abbrev pub IsByte : ℕ → Type 0
IsByte b = b < 256

tail_two : (l : ℕ) (out : Bytes) → a2b_loop 2 l 0 out (61 ∷ 61 ∷ []) ≡ some out
unfolding a2b_loop
tail_two l out = refl

tail_three : (l : ℕ) (out : Bytes) → a2b_loop 3 l 0 out (61 ∷ []) ≡ some out
unfolding a2b_loop
tail_three l out = refl

last_byte : (a : ℕ) → a < 256 → a / 4 * 4 + a % 4 * 16 / 16 ≡ a
last_byte a h = omega arith

last_two_bytes : (b : ℕ) → b < 256 → b / 16 * 16 + b % 16 * 4 / 4 ≡ b
last_two_bytes b h = omega arith

loop-encode_one :
    (a l p : ℕ) (out : Bytes)
    → a < 256
    → a2b_loop 0 l p out (digit (a / 4) ∷ digit (a % 4 * 16) ∷ 61 ∷ 61 ∷ []) ≡ some (out ++ a ∷ [])
loop-encode_one a l p out h =
    step_zero (a / 4) l p out (digit (a % 4 * 16) ∷ 61 ∷ 61 ∷ []) (omega arith)
    ∙ step_one (a % 4 * 16) (a / 4) 0 out (61 ∷ 61 ∷ []) (omega arith)
    ∙ tail_two (a % 4 * 16 % 16) (out ++ (a / 4 * 4 + a % 4 * 16 / 16) ∷ [])
    ∙ rw (last_byte a h)

loop-encode_two :
    (a b l p : ℕ) (out : Bytes)
    → a < 256
    → b < 256
    → a2b_loop 0 l p out
        (digit (a / 4) ∷ digit (a % 4 * 16 + b / 16) ∷ digit (b % 16 * 4) ∷ 61 ∷ [])
      ≡ some (out ++ a ∷ b ∷ [])
loop-encode_two a b l p out ha hb =
    two_digits a b l p out (digit (b % 16 * 4) ∷ 61 ∷ []) ha hb
    ∙ step_two (b % 16 * 4) (b / 16) 0 (out ++ a ∷ []) (61 ∷ []) (omega arith)
    ∙ tail_three (b % 16 * 4 % 4) ((out ++ a ∷ []) ++ (b / 16 * 16 + b % 16 * 4 / 4) ∷ [])
    ∙ rw (last_two_bytes b hb, append_assoc)

loop-encode :
    (bs : Bytes) (l p : ℕ) (out : Bytes)
    → All IsByte bs
    → a2b_loop 0 l p out (base64url_encode bs ++ padding (length (base64url_encode bs)))
      ≡ some (out ++ bs)
unfolding base64url_encode padding
loop-encode [] l p out h = unfold a2b_loop in rw append-nil
loop-encode (a ∷ []) l p out h = loop-encode_one a l p out h.0
loop-encode (a ∷ b ∷ []) l p out h = loop-encode_two a b l p out h.0 h.1.0
loop-encode (a ∷ b ∷ c ∷ rest) l p out h = rw (padding-group (length (base64url_encode rest))) (
    four_digits a b c l p out (base64url_encode rest ++ padding (length (base64url_encode rest)))
      h.0 h.1.0 h.1.1.0
    ∙ loop-encode rest 0 0 (((out ++ a ∷ []) ++ b ∷ []) ++ c ∷ []) h.1.1.1
    ∙ simp append_assoc)

is_ascii-encode : (bs : Bytes) → is_ascii (base64url_encode bs) ≡ true
unfolding base64url_encode
is_ascii-encode [] = refl
is_ascii-encode (a ∷ []) = simp digit-ascii
is_ascii-encode (a ∷ b ∷ []) = simp digit-ascii
is_ascii-encode (a ∷ b ∷ c ∷ rest) = simp (digit-ascii, is_ascii-encode rest)

-- The decoder gives back every byte string that the encoder was given.
pub decode-encode : (bs : Bytes) → All IsByte bs → base64url_decode (base64url_encode bs) ≡ some bs
unfolding base64url_decode
decode-encode bs h = rw (is_ascii-encode bs) (loop-encode bs 0 0 [] h)
