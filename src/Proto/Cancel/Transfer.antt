-- ===== src/Proto/Cancel/Transfer.antt =====
-- `Read` and `Write` of proto/io_context.go: what they move, by whether `done` came first. The call below
-- runs in a goroutine of its own, on a buffer of its own.
use goros.Common.{ℕ, zero, suc, Text, [], ◌∷◌, Option, none, some, length, ◌≡◌, refl, arith}
use goros.Roserr.{GoError, eof}
use goros.Proto.Cancel.{io_result}

-- The zeros of a new buffer.
abbrev zeros : ℕ → Text
zeros zero = []
zeros (suc n) = 0 ∷ zeros n

-- A buffer of `n` bytes after a call that has put `got` at its front.
abbrev pub filled : ℕ → Text → Text
filled zero got = []
filled (suc n) [] = 0 ∷ zeros n
filled (suc n) (b ∷ got) = b ∷ filled n got

-- What a call below returns: the bytes it moved, and an error.
abbrev pub Moved : Type 0
Moved = Text × Option GoError

-- `Read` into `p`: `none` where `done` came first. The whole buffer is copied to `p`.
unfoldable pub ctx_read : Option Moved → Text → Text × (ℕ × Option GoError)
ctx_read none p = (p, io_result none)
ctx_read (some (got, e)) p = (filled (length p) got, io_result (some (length got, e)))

-- `Write`, where the call below takes so many bytes.
unfoldable pub ctx_write : Option (ℕ × Option GoError) → ℕ × Option GoError
ctx_write r = io_result r

length-zeros : (n : ℕ) → length (zeros n) ≡ n
length-zeros zero = refl
length-zeros (suc n) = omega (arith, length-zeros n)

length-filled : (n : ℕ) (got : Text) → length (filled n got) ≡ n
length-filled zero got = refl
length-filled (suc n) [] = omega (arith, length-zeros n)
length-filled (suc n) (b ∷ got) = omega (arith, length-filled n got)

-- `Read` never changes how long `p` is; where `done` came first, `p` is as it was and the result is no
-- byte and `io.EOF`.
pub ctx_read_lem :
    (r : Option Moved) (p : Text)
    → (length (ctx_read r p).0 ≡ length p) × (r ≡ none → ctx_read r p ≡ (p, (0, some eof)))
unfolding ctx_read
ctx_read_lem none p = (refl, λ h. refl)
ctx_read_lem (some (got, e)) p = (length-filled (length p) got, λ h. absurd (cc h))
