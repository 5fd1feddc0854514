-- ===== src/Proto/Length.antt =====
-- The length prefix of a word: `encodeLength` of proto/writer.go, `readNumber` and `readLength` of
-- proto/reader.go. A stream is the list of the bytes that it still delivers before it ends.
pub mod Bytes
pub mod RoundTrip
pub mod Bound
use goros.Common.{ℕ, zero, suc, ◌+◌, ◌*◌, ◌/◌, ◌%◌, ◌^◌, bit_and, bit_or, Text, List, [], ◌∷◌}
use goros.Common.{ltb, ◌==◌, if◌then◌else◌, length, take, drop, is_empty}
use goros.Common.Bits.{complement}
use goros.Roserr.{Result, ok, err, GoError, eof, unexpected_eof, ◌>>=◌}

-- `byte(l >> k)`
abbrev pub byte_at : ℕ → ℕ → ℕ
byte_at l k = l / 2 ^ k % 2 ^ 8

unfoldable pub encode_length : ℕ → Text
encode_length l =
    if ltb l 0x80
    then byte_at l 0 ∷ []
    else if ltb l 0x4000
    then bit_or (byte_at l 8) 0x80 ∷ byte_at l 0 ∷ []
    else if ltb l 0x200000
    then bit_or (byte_at l 16) 0xC0 ∷ byte_at l 8 ∷ byte_at l 0 ∷ []
    else if ltb l 0x10000000
    then bit_or (byte_at l 24) 0xE0 ∷ byte_at l 16 ∷ byte_at l 8 ∷ byte_at l 0 ∷ []
    else 0xF0 ∷ byte_at l 24 ∷ byte_at l 16 ∷ byte_at l 8 ∷ byte_at l 0 ∷ []

-- `io.ReadFull` for `n` bytes: them and the rest of the stream, or how the stream ended.
unfoldable pub read_full : ℕ → Text → Result (Text × Text)
read_full n s =
    if ltb (length s) n
    then err (if is_empty s then eof else unexpected_eof)
    else ok (take n s, drop n s)

-- `num = num<<8 | int64(ch)` over the bytes read
unfoldable pub join_bytes : ℕ → Text → ℕ
join_bytes num [] = num
join_bytes num (ch ∷ b) = join_bytes (bit_or (num * 2 ^ 8 % 2 ^ 64) ch) b

unfoldable pub read_number : ℕ → Text → Result (ℕ × Text)
read_number size s = do (b, rest) ← read_full size s; ok (join_bytes 0 b, rest)

-- `l & ^mask << k | n`
abbrev pub with_tail : ℕ → ℕ → ℕ → ℕ → ℕ
with_tail l mask k n = bit_or (bit_and l (complement mask) * 2 ^ k % 2 ^ 64) n

-- A first byte of 0xF8 or more meets no case, and is the length itself.
unfoldable pub length_from : ℕ → Text → Result (ℕ × Text)
length_from l s =
    if bit_and l 0x80 == 0x00
    then ok (l, s)
    else if bit_and l 0xC0 == 0x80
    then (do (n, rest) ← read_number 1 s; ok (with_tail l 0xC0 8 n, rest))
    else if bit_and l 0xE0 == 0xC0
    then (do (n, rest) ← read_number 2 s; ok (with_tail l 0xE0 16 n, rest))
    else if bit_and l 0xF0 == 0xE0
    then (do (n, rest) ← read_number 3 s; ok (with_tail l 0xF0 24 n, rest))
    else if bit_and l 0xF8 == 0xF0
    then read_number 4 s
    else ok (l, s)

unfoldable pub read_length : Text → Result (ℕ × Text)
unfolding length_from
read_length s = do (l, rest) ← read_number 1 s; length_from l rest
