-- ===== src/Auth/Base64.antt =====
-- Base64 as meritmolt/auth/tokens.py uses it: _base64url_encode and _base64url_decode. The decoder is
-- CPython's binascii.a2b_base64 in its non-strict mode, after `-` and `_` are translated.
pub mod Roundtrip
use meritmolt.Prelude.{
  ℕ, ◌+◌, ◌-◌, ◌*◌, ◌/◌, ◌%◌, Bool, true, ◌&&◌, Option, none, some, [], ◌∷◌, ◌++◌, length, ltb, leb,
  ◌==◌, if◌then◌else◌,
}
use meritmolt.Auth.Tables.{Text, Bytes}

-- The digit of a value below 64 in the URL-safe alphabet.
unfoldable pub digit : ℕ → ℕ
digit v =
    if ltb v 26
    then v + 65
    else if ltb v 52
    then v + 71
    else if ltb v 62
    then v - 4
    else if v == 62
    then 45
    else 95

-- The value of a digit; 64 stands for a character outside both alphabets, as in binascii's table.
unfoldable pub digit_value : ℕ → ℕ
digit_value c =
    if leb 65 c && leb c 90
    then c - 65
    else if leb 97 c && leb c 122
    then c - 71
    else if leb 48 c && leb c 57
    then c + 4
    else if c == 45
    then 62
    else if c == 43
    then 62
    else if c == 95
    then 63
    else if c == 47
    then 63
    else 64

-- `base64.urlsafe_b64encode(data).rstrip(b"=")`.
unfoldable pub base64url_encode : Bytes → Text
unfolding digit
base64url_encode [] = []
base64url_encode (a ∷ []) = digit (a / 4) ∷ digit (a % 4 * 16) ∷ []
base64url_encode (a ∷ b ∷ []) =
    digit (a / 4) ∷ digit (a % 4 * 16 + b / 16) ∷ digit (b % 16 * 4) ∷ []
base64url_encode (a ∷ b ∷ c ∷ rest) =
    digit (a / 4)
    ∷ digit (a % 4 * 16 + b / 16)
    ∷ digit (b % 16 * 4 + c / 64)
    ∷ digit (c % 64)
    ∷ base64url_encode rest

-- binascii's loop: the position within a group of four digits, the bits left over, the count of
-- padding characters, and the bytes so far. `none` is binascii.Error, which is a ValueError.
unfoldable pub a2b_loop : ℕ → ℕ → ℕ → Bytes → Text → Option Bytes
a2b_loop quad left pads out [] = if quad == 0 then some out else none
a2b_loop quad left pads out (c ∷ rest) =
    let padded = a2b_loop quad left (pads + 1) out rest in
    let unpadded = a2b_loop quad left pads out rest in
    let next0 = a2b_loop 1 (digit_value c) 0 out rest in
    let next1 =
      a2b_loop 2 (digit_value c % 16) 0 (out ++ (left * 4 + digit_value c / 16) ∷ []) rest in
    let next2 =
      a2b_loop 3 (digit_value c % 4) 0 (out ++ (left * 16 + digit_value c / 4) ∷ []) rest in
    let next3 = a2b_loop 0 0 0 (out ++ (left * 64 + digit_value c) ∷ []) rest in
    if c == 61
    then (if leb 2 quad then (if leb 4 (quad + (pads + 1)) then some out else padded) else unpadded)
    else if digit_value c == 64
    then unpadded
    else if quad == 0
    then next0
    else if quad == 1
    then next1
    else if quad == 2
    then next2
    else next3

-- `"=" * pad` for `pad = 4 - len(s) % 4`, unless that is 4.
unfoldable pub padding : ℕ → Text
padding n =
    if n % 4 == 0
    then []
    else if n % 4 == 3
    then 61 ∷ []
    else if n % 4 == 2
    then 61 ∷ 61 ∷ []
    else 61 ∷ 61 ∷ 61 ∷ []

abbrev pub is_ascii : Text → Bool
is_ascii [] = true
is_ascii (c ∷ rest) = ltb c 128 && is_ascii rest

-- A character that is not ASCII is a ValueError too.
unfoldable pub base64url_decode : Text → Option Bytes
unfolding a2b_loop padding digit_value
base64url_decode s = if is_ascii s then a2b_loop 0 0 0 [] (s ++ padding (length s)) else none
