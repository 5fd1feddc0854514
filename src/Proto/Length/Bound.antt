-- ===== src/Proto/Length/Bound.antt =====
-- How large a length read from the wire can be.
use goros.Common.{
  ◌≤◌, ℕ, ◌+◌, ◌*◌, ◌%◌, ◌^◌, ◌<◌, bit_and, Text, [], ◌∷◌, All, ◌≡◌, refl, inl, inr, arith, ◌==◌,
  Bool-cases, ◌++◌, length, ap,
}
use goros.Common.Bits.{eq_below, all_below, complement}
use goros.Roserr.{Result, ok, err, ◌>>=◌}
use goros.Proto.Length.{read_full, read_number, with_tail, length_from, read_length}
use goros.Proto.Length.Bytes.{
  join_bytes-one, join_bytes-two, join_bytes-three, join_bytes-four, read_number-exact,
  with_tail-join,
}

abbrev pub Bytes : Text → Type 0
Bytes s = All (λ b. b < 256) s

-- What is left of the stream behind so many bytes at most, one at least.
abbrev pub Behind : ℕ → Text → Text → Type 0
Behind k s rest = (used : Text) × (s ≡ used ++ rest) × (0 < length used) × (length used ≤ k)

-- A number read is below the bound, and what is left is the stream behind so many bytes at most.
abbrev pub Below : ℕ → ℕ → Text → Result (ℕ × Text) → Type 0
Below m k s (ok (n, rest)) = (n < m) × Bytes rest × Behind k s rest
Below m k s (err e) = Unit

number_one : (s : Text) → Bytes s → Below (2 ^ 8) 1 s (read_number 1 s)
unfolding read_number read_full
number_one [] h = tt
number_one (a ∷ rest) h =
    rw (read_number-exact (a ∷ []) rest, join_bytes-one a h.0)
      (h.0, h.1, (a ∷ [], refl, omega arith, omega arith))

number_two : (s : Text) → Bytes s → Below (2 ^ 16) 2 s (read_number 2 s)
unfolding read_number read_full
number_two [] h = tt
number_two (a ∷ []) h = tt
number_two (a ∷ b ∷ rest) h =
    rw (read_number-exact (a ∷ b ∷ []) rest, join_bytes-two a b h.0 h.1.0)
      (omega arith, h.1.1, (a ∷ b ∷ [], refl, omega arith, omega arith))

number_three : (s : Text) → Bytes s → Below (2 ^ 24) 3 s (read_number 3 s)
unfolding read_number read_full
number_three [] h = tt
number_three (a ∷ []) h = tt
number_three (a ∷ b ∷ []) h = tt
number_three (a ∷ b ∷ c ∷ rest) h =
    rw (read_number-exact (a ∷ b ∷ c ∷ []) rest, join_bytes-three a b c h.0 h.1.0 h.1.1.0)
      (omega arith, h.1.1.1, (a ∷ b ∷ c ∷ [], refl, omega arith, omega arith))

number_four : (s : Text) → Bytes s → Below (2 ^ 32) 4 s (read_number 4 s)
unfolding read_number read_full
number_four [] h = tt
number_four (a ∷ []) h = tt
number_four (a ∷ b ∷ []) h = tt
number_four (a ∷ b ∷ c ∷ []) h = tt
number_four (a ∷ b ∷ c ∷ d ∷ rest) h =
    rw
      (
        read_number-exact (a ∷ b ∷ c ∷ d ∷ []) rest,
        join_bytes-four a b c d h.0 h.1.0 h.1.1.0 h.1.1.1.0,
      )
      (omega arith, h.1.1.1.1, (a ∷ b ∷ c ∷ d ∷ [], refl, omega arith, omega arith))

-- The bits of the first byte that count, by a table.
first_bits :
    (l : ℕ)
    → l < 256
    → (bit_and l (complement 0xC0) ≡ l % 64)
      × (bit_and l (complement 0xE0) ≡ l % 32)
      × (bit_and l (complement 0xF0) ≡ l % 16)
unfolding all_below
first_bits l lt = (
  eq_below 256 (λ x. bit_and x (complement 0xC0)) (λ x. x % 64) refl l lt,
  eq_below 256 (λ x. bit_and x (complement 0xE0)) (λ x. x % 32) refl l lt,
  eq_below 256 (λ x. bit_and x (complement 0xF0)) (λ x. x % 16) refl l lt,
)

-- Behind the byte `l`, which the stream began with.
Behind-cons : (k l : ℕ) (s rest : Text) → k < 5 → Behind k s rest → Behind 5 (l ∷ s) rest
Behind-cons k l s rest lt (used, e, some_used, few) =
    (l ∷ used, ap (λ (u : Text). l ∷ u) e, omega arith, omega arith)

number_Below :
    (m k l : ℕ) (s : Text) (r : Result (ℕ × Text))
    → m ≤ 2 ^ 32
    → k < 5
    → Below m k s r
    → Below (2 ^ 32) 5 (l ∷ s) r
number_Below m k l s (err e) fits few below = tt
number_Below m k l s (ok (n, rest)) fits few (lt, more, behind) =
    (omega arith, more, Behind-cons k l s rest few behind)

-- The first byte's bits above those of the number behind it.
tail_Below :
    (l mask k j h : ℕ) (s : Text) (r : Result (ℕ × Text))
    → bit_and l (complement mask) ≡ h
    → h < 64
    → h * 2 ^ k + 2 ^ k ≤ 2 ^ 28
    → j < 5
    → Below (2 ^ k) j s r
    → Below (2 ^ 32) 5 (l ∷ s) (do (n, rest) ← r; ok (with_tail l mask k n, rest))
tail_Below l mask k j h s (err e) b small fits few below = tt
tail_Below l mask k j h s (ok (n, rest)) b small fits few (lt, more, behind) =
    rw (with_tail-join l mask k n h b (omega arith) lt)
      (omega arith, more, Behind-cons j l s rest few behind)

length_from-Below :
    (l : ℕ) (s : Text) → l < 256 → Bytes s → Below (2 ^ 32) 5 (l ∷ s) (length_from l s)
unfolding length_from
length_from-Below l s lt h =
    let (two, three, four) = first_bits l lt in
    let whole : Below (2 ^ 32) 5 (l ∷ s) (ok (l, s)) =
      (omega arith, h, (l ∷ [], refl, omega arith, omega arith)) in
    elim (Bool-cases (bit_and l 0x80 == 0x00)) [
      | inl e ↦ rw (e, length_from) whole
      | inr e ↦ elim (Bool-cases (bit_and l 0xC0 == 0x80)) [
        | inl g ↦
            rw (e, length_from, g)
              (tail_Below l 0xC0 8 1 (l % 64) s (read_number 1 s) two (omega arith) (omega arith)
                (omega arith) (number_one s h))
        | inr g ↦ elim (Bool-cases (bit_and l 0xE0 == 0xC0)) [
          | inl i ↦
              rw (e, length_from, g, i)
                (tail_Below l 0xE0 16 2 (l % 32) s (read_number 2 s) three (omega arith)
                  (omega arith) (omega arith) (number_two s h))
          | inr i ↦ elim (Bool-cases (bit_and l 0xF0 == 0xE0)) [
            | inl j ↦
                rw (e, length_from, g, i, j)
                  (tail_Below l 0xF0 24 3 (l % 16) s (read_number 3 s) four (omega arith)
                    (omega arith) (omega arith) (number_three s h))
            | inr j ↦ elim (Bool-cases (bit_and l 0xF8 == 0xF0)) [
              | inl k ↦
                  rw (e, length_from, g, i, j, k)
                    (number_Below (2 ^ 32) 4 l s (read_number 4 s) (omega arith) (omega arith)
                      (number_four s h))
              | inr k ↦ rw (e, length_from, g, i, j, k) whole
            ]
          ]
        ]
      ]
    ]

first_byte : (l : ℕ) (rest : Text) → l < 256 → read_number 1 (l ∷ rest) ≡ ok (l, rest)
first_byte l rest lt = rw (read_number-exact (l ∷ []) rest, join_bytes-one l lt) refl

-- Whatever bytes the device sends, a length that is read is below 2^32, far from the sign bit of the
-- int64 that holds it, and what is left of the stream is what stands behind the one to five bytes that
-- were read.
pub read_length-Below : (s : Text) → Bytes s → Below (2 ^ 32) 5 s (read_length s)
unfolding read_length read_number read_full
read_length-Below [] h = tt
read_length-Below (l ∷ rest) h = rw (first_byte l rest h.0) (length_from-Below l rest h.0 h.1)
