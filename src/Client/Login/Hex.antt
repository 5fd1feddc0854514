-- ===== src/Client/Login/Hex.antt =====
-- `hex.DecodeString` and `%x` of bytes.
use goros.Common.{
  Text, text, ℕ, ◌+◌, ◌-◌, ◌*◌, ◌/◌, ◌%◌, ◌<◌, [], ◌∷◌, ◌++◌, ◌&&◌, Option, none, some,
  if◌then◌else◌, leb, ltb, All, ◌≡◌, refl, arith,
}
use goros.Roserr.{GoError, Result, ok, err, external}

abbrev hex_digit : ℕ → ℕ
hex_digit n = if ltb n 10 then 48 + n else 87 + n

-- The value of a digit of either case.
abbrev hex_value : ℕ → Option ℕ
hex_value c =
    if leb 48 c && leb c 57
    then some (c - 48)
    else if leb 97 c && leb c 102
    then some (c - 87)
    else if leb 65 c && leb c 70
    then some (c - 55)
    else none

unfoldable pub hex_encode : Text → Text
hex_encode [] = []
hex_encode (b ∷ s) = hex_digit (b / 16) ∷ hex_digit (b % 16) ∷ hex_encode s

abbrev pub invalid_byte : (ℕ → Text) → ℕ → GoError
invalid_byte rune c = external (text "encoding/hex: invalid byte: " ++ rune c)

abbrev pub odd_length : GoError
odd_length = external (text "encoding/hex: odd length hex string")

abbrev put_byte : ℕ → Result Text → Result Text
put_byte b (ok s) = ok (b ∷ s)
put_byte b (err e) = err e

-- The byte of two digits, and what `rest` decodes to behind it.
abbrev two_digits : (ℕ → Text) → ℕ → ℕ → Option ℕ → Option ℕ → Result Text → Result Text
two_digits rune c d none low rest = err (invalid_byte rune c)
two_digits rune c d (some high) none rest = err (invalid_byte rune d)
two_digits rune c d (some high) (some low) rest = put_byte (high * 16 + low) rest

abbrev last_digit : (ℕ → Text) → ℕ → Option ℕ → Result Text
last_digit rune c none = err (invalid_byte rune c)
last_digit rune c (some n) = err odd_length

unfoldable pub hex_decode : (ℕ → Text) → Text → Result Text
hex_decode rune [] = ok []
hex_decode rune (c ∷ []) = last_digit rune c (hex_value c)
hex_decode rune (c ∷ d ∷ s) = two_digits rune c d (hex_value c) (hex_value d) (hex_decode rune s)

value-digit : (n : ℕ) → n < 16 → hex_value (hex_digit n) ≡ some n
value-digit n h = ground arith

byte_parts : (b : ℕ) → b < 256 → (b / 16 < 16) × (b % 16 < 16) × (b / 16 * 16 + b % 16 ≡ b)
byte_parts b h = (omega arith, omega arith, omega arith)

-- Bytes are decoded from their digits.
pub hex_decode-hex_encode :
    (rune : ℕ → Text) (s : Text) → All (λ b. b < 256) s → hex_decode rune (hex_encode s) ≡ ok s
unfolding hex_decode hex_encode
hex_decode-hex_encode rune [] h = refl
hex_decode-hex_encode rune (b ∷ s) h =
    let (high, low, whole) = byte_parts b h.0 in
    rw
      (value-digit (b / 16) high, value-digit (b % 16) low, hex_decode-hex_encode rune s h.1, whole)
      refl
