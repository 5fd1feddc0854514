-- ===== src/Proto/Length/RoundTrip.antt =====
-- `readLength` reads back what `encodeLength` wrote.
use goros.Common.{ℕ, ◌+◌, ◌*◌, ◌%◌, ◌^◌, ◌<◌, bit_or, Text, [], ◌∷◌, ◌++◌}
use goros.Common.{◌≡◌, refl, ◌∙◌, arith, ltb, inl, inr, Bool-cases, ltb→lt}
use goros.Common.Bits.{eq_below, all_below}
use goros.Roserr.{Result, ok}
use goros.Proto.Length.{encode_length, read_length, length_from, byte_at}
use goros.Proto.Length.Bytes.{join_bytes-one, join_bytes-two, join_bytes-three, join_bytes-four}
use goros.Proto.Length.Bytes.{
  read_number-exact, mark_one, mark_two, mark_three, mark_four, with_tail-join,
}

read_length-cons : (a : ℕ) (rest : Text) → a < 256 → read_length (a ∷ rest) ≡ length_from a rest
unfolding read_length
read_length-cons a rest h = rw (read_number-exact (a ∷ []) rest, join_bytes-one a h) refl

from_one : (a : ℕ) (rest : Text) → a < 128 → length_from a rest ≡ ok (a, rest)
unfolding length_from
from_one a rest h = ground (arith, mark_one a h)

from_two :
    (h b : ℕ) (rest : Text)
    → h < 64
    → b < 256
    → length_from (bit_or h 0x80) (b ∷ rest) ≡ ok (h * 256 + b, rest)
unfolding length_from
from_two h b rest hh hb =
    let m = mark_two h hh in
    rw (m.0, m.1, read_number-exact (b ∷ []) rest, join_bytes-one b hb)
      (rw (with_tail-join (bit_or h 0x80) 0xC0 8 b h m.2 (omega arith) hb) refl)

from_three :
    (h b c : ℕ) (rest : Text)
    → h < 32
    → b < 256
    → c < 256
    → length_from (bit_or h 0xC0) (b ∷ c ∷ rest) ≡ ok (h * 65536 + (b * 256 + c), rest)
unfolding length_from
from_three h b c rest hh hb hc =
    let m = mark_three h hh in
    rw (m.0, m.1, m.2, read_number-exact (b ∷ c ∷ []) rest, join_bytes-two b c hb hc)
      (rw (with_tail-join (bit_or h 0xC0) 0xE0 16 (b * 256 + c) h m.3 (omega arith) (omega arith))
        refl)

from_four :
    (h b c d : ℕ) (rest : Text)
    → h < 16
    → b < 256
    → c < 256
    → d < 256
    → length_from (bit_or h 0xE0) (b ∷ c ∷ d ∷ rest)
      ≡ ok (h * 16777216 + (b * 65536 + c * 256 + d), rest)
unfolding length_from
from_four h b c d rest hh hb hc hd =
    let m = mark_four h hh in
    rw
      (m.0, m.1, m.2, m.3, read_number-exact (b ∷ c ∷ d ∷ []) rest, join_bytes-three b c d hb hc hd)
      (rw
        (with_tail-join (bit_or h 0xE0) 0xF0 24 (b * 65536 + c * 256 + d) h m.4 (omega arith)
          (omega arith))
        refl)

from_five :
    (a b c d : ℕ) (rest : Text)
    → a < 256
    → b < 256
    → c < 256
    → d < 256
    → length_from 0xF0 (a ∷ b ∷ c ∷ d ∷ rest) ≡ ok (a * 16777216 + b * 65536 + c * 256 + d, rest)
unfolding length_from
from_five a b c d rest ha hb hc hd =
    rw (read_number-exact (a ∷ b ∷ c ∷ d ∷ []) rest, join_bytes-four a b c d ha hb hc hd) refl

abbrev Read : ℕ → Text → Result (ℕ × Text)
Read n rest = ok (n, rest)

read_ap : (n m : ℕ) (rest : Text) → n ≡ m → Read n rest ≡ Read m rest
read_ap n m rest e = cc

two_is_byte : (h : ℕ) → h < 64 → bit_or h 0x80 < 256
unfolding all_below
two_is_byte h lt = omega (arith, eq_below 64 (λ x. bit_or x 0x80) (λ x. x + 0x80) refl h lt)

three_is_byte : (h : ℕ) → h < 32 → bit_or h 0xC0 < 256
unfolding all_below
three_is_byte h lt = omega (arith, eq_below 32 (λ x. bit_or x 0xC0) (λ x. x + 0xC0) refl h lt)

four_is_byte : (h : ℕ) → h < 16 → bit_or h 0xE0 < 256
unfolding all_below
four_is_byte h lt = omega (arith, eq_below 16 (λ x. bit_or x 0xE0) (λ x. x + 0xE0) refl h lt)

-- One lemma for each form that `encodeLength` has.
module _ (l : ℕ) (rest : Text) where
  short : l < 0x80 → read_length (byte_at l 0 ∷ rest) ≡ Read (l % 2 ^ 32) rest
  short h =
      read_length-cons (byte_at l 0) rest (omega arith)
      ∙ from_one (byte_at l 0) rest (omega arith)
      ∙ read_ap (byte_at l 0) (l % 2 ^ 32) rest (omega arith)

  two_bytes :
      l < 0x4000
      → read_length (bit_or (byte_at l 8) 0x80 ∷ byte_at l 0 ∷ rest) ≡ Read (l % 2 ^ 32) rest
  two_bytes h =
      let top : byte_at l 8 < 64 = omega arith in
      read_length-cons (bit_or (byte_at l 8) 0x80) (byte_at l 0 ∷ rest)
        (two_is_byte (byte_at l 8) top)
      ∙ from_two (byte_at l 8) (byte_at l 0) rest top (omega arith)
      ∙ read_ap (byte_at l 8 * 256 + byte_at l 0) (l % 2 ^ 32) rest (omega arith)

  three_bytes :
      l < 0x200000
      → read_length (bit_or (byte_at l 16) 0xC0 ∷ byte_at l 8 ∷ byte_at l 0 ∷ rest)
        ≡ Read (l % 2 ^ 32) rest
  three_bytes h =
      let top : byte_at l 16 < 32 = omega arith in
      read_length-cons (bit_or (byte_at l 16) 0xC0) (byte_at l 8 ∷ byte_at l 0 ∷ rest)
        (three_is_byte (byte_at l 16) top)
      ∙ from_three (byte_at l 16) (byte_at l 8) (byte_at l 0) rest top (omega arith) (omega arith)
      ∙ read_ap (byte_at l 16 * 65536 + (byte_at l 8 * 256 + byte_at l 0)) (l % 2 ^ 32) rest
          (omega arith)

  four_bytes :
      l < 0x10000000
      → read_length (bit_or (byte_at l 24) 0xE0 ∷ byte_at l 16 ∷ byte_at l 8 ∷ byte_at l 0 ∷ rest)
        ≡ Read (l % 2 ^ 32) rest
  four_bytes h =
      let top : byte_at l 24 < 16 = omega arith in
      read_length-cons (bit_or (byte_at l 24) 0xE0)
        (byte_at l 16 ∷ byte_at l 8 ∷ byte_at l 0 ∷ rest) (four_is_byte (byte_at l 24) top)
      ∙ from_four (byte_at l 24) (byte_at l 16) (byte_at l 8) (byte_at l 0) rest top (omega arith)
          (omega arith) (omega arith)
      ∙ read_ap (byte_at l 24 * 16777216 + (byte_at l 16 * 65536 + byte_at l 8 * 256 + byte_at l 0))
          (l % 2 ^ 32) rest (omega arith)

  five_bytes :
      read_length (0xF0 ∷ byte_at l 24 ∷ byte_at l 16 ∷ byte_at l 8 ∷ byte_at l 0 ∷ rest)
      ≡ Read (l % 2 ^ 32) rest
  five_bytes =
      read_length-cons 0xF0 (byte_at l 24 ∷ byte_at l 16 ∷ byte_at l 8 ∷ byte_at l 0 ∷ rest)
        (omega arith)
      ∙ from_five (byte_at l 24) (byte_at l 16) (byte_at l 8) (byte_at l 0) rest (omega arith)
          (omega arith) (omega arith) (omega arith)
      ∙ read_ap (byte_at l 24 * 16777216 + byte_at l 16 * 65536 + byte_at l 8 * 256 + byte_at l 0)
          (l % 2 ^ 32) rest (omega arith)

-- `readLength` gives back every length below 2^32 that `encodeLength` encoded, and leaves what
-- follows it; of a larger length it gives back the low 32 bits.
pub read_length-encode_length :
    (l : ℕ) (rest : Text) → read_length (encode_length l ++ rest) ≡ ok (l % 2 ^ 32, rest)
unfolding encode_length
read_length-encode_length l rest = elim (Bool-cases (ltb l 0x80)) [
  | inl e ↦ rw e (short l rest (ltb→lt l 0x80 e))
  | inr e ↦ rw e (elim (Bool-cases (ltb l 0x4000)) [
    | inl e' ↦ rw e' (two_bytes l rest (ltb→lt l 0x4000 e'))
    | inr e' ↦ rw e' (elim (Bool-cases (ltb l 0x200000)) [
      | inl f ↦ rw f (three_bytes l rest (ltb→lt l 0x200000 f))
      | inr f ↦ rw f (elim (Bool-cases (ltb l 0x10000000)) [
        | inl f' ↦ rw f' (four_bytes l rest (ltb→lt l 0x10000000 f'))
        | inr f' ↦ rw f' (five_bytes l rest)
      ])
    ])
  ])
]
