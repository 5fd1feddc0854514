-- ===== src/Proto/Length/Bytes.antt =====
-- Reading a few bytes, and the masks of the first byte, as arithmetic.
use goros.Common.{ℕ, ◌+◌, ◌*◌, ◌%◌, ◌^◌, ◌<◌, bit_and, bit_or, Text, [], ◌∷◌}
use goros.Common.{
  ◌≡◌, refl, arith, ltb, length, ◌++◌, false, length-append, take-append, drop-append,
}
use goros.Common.Bits.{bit_or-join, eq_below, all_below, complement}
use native.Mathlib.Nat.{mod-eq_of_lt}
use goros.Roserr.{ok}
use goros.Proto.Length.{join_bytes, read_full, read_number, with_tail}

-- Big-endian, without wrapping.
pub join_bytes-step :
    (num ch : ℕ) (b : Text)
    → num < 2 ^ 56
    → ch < 256
    → join_bytes num (ch ∷ b) ≡ join_bytes (num * 256 + ch) b
unfolding join_bytes
join_bytes-step num ch b hn hc =
    let fits : num * 2 ^ 8 % 2 ^ 64 ≡ num * 2 ^ 8 = omega arith in
    rw (fits, bit_or-join 8 num ch hc) refl

pub join_bytes-one : (a : ℕ) → a < 256 → join_bytes 0 (a ∷ []) ≡ a
join_bytes-one a ha =
    rw (join_bytes-step 0 a [] (omega arith) ha) (unfold join_bytes in omega arith)

pub join_bytes-two : (a b : ℕ) → a < 256 → b < 256 → join_bytes 0 (a ∷ b ∷ []) ≡ a * 256 + b
unfolding join_bytes
join_bytes-two a b ha hb = omega (
  arith,
  join_bytes-step 0 a (b ∷ []) (omega arith) ha,
  join_bytes-step (0 * 256 + a) b [] (omega arith) hb,
)

pub join_bytes-three :
    (a b c : ℕ)
    → a < 256
    → b < 256
    → c < 256
    → join_bytes 0 (a ∷ b ∷ c ∷ []) ≡ a * 65536 + b * 256 + c
unfolding join_bytes
join_bytes-three a b c ha hb hc = omega (
  arith,
  join_bytes-step 0 a (b ∷ c ∷ []) (omega arith) ha,
  join_bytes-step (0 * 256 + a) b (c ∷ []) (omega arith) hb,
  join_bytes-step ((0 * 256 + a) * 256 + b) c [] (omega arith) hc,
)

pub join_bytes-four :
    (a b c d : ℕ)
    → a < 256
    → b < 256
    → c < 256
    → d < 256
    → join_bytes 0 (a ∷ b ∷ c ∷ d ∷ []) ≡ a * 16777216 + b * 65536 + c * 256 + d
unfolding join_bytes
join_bytes-four a b c d ha hb hc hd = omega (
  arith,
  join_bytes-step 0 a (b ∷ c ∷ d ∷ []) (omega arith) ha,
  join_bytes-step (0 * 256 + a) b (c ∷ d ∷ []) (omega arith) hb,
  join_bytes-step ((0 * 256 + a) * 256 + b) c (d ∷ []) (omega arith) hc,
  join_bytes-step (((0 * 256 + a) * 256 + b) * 256 + c) d [] (omega arith) hd,
)

-- Reading as many bytes as a text has, where the stream begins with it, returns the text.
pub read_full-exact : (w rest : Text) → read_full (length w) (w ++ rest) ≡ ok (w, rest)
unfolding read_full
read_full-exact w rest =
    let enough : ltb (length (w ++ rest)) (length w) ≡ false =
      ground (arith, length-append w rest) in
    rw (enough, take-append w rest, drop-append w rest) refl

pub read_number-exact :
    (w rest : Text) → read_number (length w) (w ++ rest) ≡ ok (join_bytes 0 w, rest)
unfolding read_number
read_number-exact w rest = rw (read_full-exact w rest) refl

-- The marks on the first byte of each class.
pub mark_two :
    (h : ℕ)
    → h < 64
    → (bit_and (bit_or h 0x80) 0x80 ≡ 0x80)
      × (bit_and (bit_or h 0x80) 0xC0 ≡ 0x80)
      × (bit_and (bit_or h 0x80) (complement 0xC0) ≡ h)
unfolding all_below
mark_two h lt = (
  eq_below 64 (λ x. bit_and (bit_or x 0x80) 0x80) (λ x. 0x80) refl h lt,
  eq_below 64 (λ x. bit_and (bit_or x 0x80) 0xC0) (λ x. 0x80) refl h lt,
  eq_below 64 (λ x. bit_and (bit_or x 0x80) (complement 0xC0)) (λ x. x) refl h lt,
)

pub mark_three :
    (h : ℕ)
    → h < 32
    → (bit_and (bit_or h 0xC0) 0x80 ≡ 0x80)
      × (bit_and (bit_or h 0xC0) 0xC0 ≡ 0xC0)
      × (bit_and (bit_or h 0xC0) 0xE0 ≡ 0xC0)
      × (bit_and (bit_or h 0xC0) (complement 0xE0) ≡ h)
unfolding all_below
mark_three h lt = (
  eq_below 32 (λ x. bit_and (bit_or x 0xC0) 0x80) (λ x. 0x80) refl h lt,
  eq_below 32 (λ x. bit_and (bit_or x 0xC0) 0xC0) (λ x. 0xC0) refl h lt,
  eq_below 32 (λ x. bit_and (bit_or x 0xC0) 0xE0) (λ x. 0xC0) refl h lt,
  eq_below 32 (λ x. bit_and (bit_or x 0xC0) (complement 0xE0)) (λ x. x) refl h lt,
)

pub mark_four :
    (h : ℕ)
    → h < 16
    → (bit_and (bit_or h 0xE0) 0x80 ≡ 0x80)
      × (bit_and (bit_or h 0xE0) 0xC0 ≡ 0xC0)
      × (bit_and (bit_or h 0xE0) 0xE0 ≡ 0xE0)
      × (bit_and (bit_or h 0xE0) 0xF0 ≡ 0xE0)
      × (bit_and (bit_or h 0xE0) (complement 0xF0) ≡ h)
unfolding all_below
mark_four h lt = (
  eq_below 16 (λ x. bit_and (bit_or x 0xE0) 0x80) (λ x. 0x80) refl h lt,
  eq_below 16 (λ x. bit_and (bit_or x 0xE0) 0xC0) (λ x. 0xC0) refl h lt,
  eq_below 16 (λ x. bit_and (bit_or x 0xE0) 0xE0) (λ x. 0xE0) refl h lt,
  eq_below 16 (λ x. bit_and (bit_or x 0xE0) 0xF0) (λ x. 0xE0) refl h lt,
  eq_below 16 (λ x. bit_and (bit_or x 0xE0) (complement 0xF0)) (λ x. x) refl h lt,
)

pub mark_one : (h : ℕ) → h < 128 → bit_and h 0x80 ≡ 0
unfolding all_below
mark_one h lt = eq_below 128 (λ x. bit_and x 0x80) (λ x. 0) refl h lt

-- The class of a five-byte length is told by its first byte alone.
pub with_tail-join :
    (l mask k n h : ℕ)
    → bit_and l (complement mask) ≡ h
    → h * 2 ^ k < 2 ^ 64
    → n < 2 ^ k
    → with_tail l mask k n ≡ h * 2 ^ k + n
with_tail-join l mask k n h e fits small = rw (e, mod-eq_of_lt fits) (bit_or-join k h n small)
