-- ===== src/Common/Bits.antt =====
-- Bit operations on 64-bit integers that hold a byte, as arithmetic; byte facts are tables checked
-- by evaluation.
use Prim.Native.Nat.{ℕ, zero, suc, ◌+◌, ◌-◌, ◌*◌, ◌/◌, ◌%◌, ◌^◌, ◌≤◌, ◌<◌, max}
use Prim.Native.Nat.{bit_or, bit_xor, digits, bit_or-bitwise}
use mathlib.Core.Path.{◌≡◌, refl, ap, ◌∙◌}
use native.Mathlib.Nat.{pow-suc}
use mathlib.Core.Bool.{Bool, true, ◌&&◌}
use native.Mathlib.Omega.{arith}
use goros.Common.Tests.{◌==◌, ==_iff, Bool-cases}
use mathlib.Core.Logic.{inl, inr}

-- `^m` on an int64, as its 64-bit pattern.
abbrev pub complement : ℕ → ℕ
complement m = bit_xor (2 ^ 64 - 1) m

unfoldable pub all_below : ℕ → (ℕ → Bool) → Bool
all_below zero test = true
all_below (suc bound) test = let smaller = all_below bound test in smaller && test bound

all_below_sound :
    (bound : ℕ) (test : ℕ → Bool)
    → all_below bound test ≡ true
    → (x : ℕ) → x < bound
    → test x ≡ true
unfolding all_below
all_below_sound zero test h x small = absurd (omega arith)
all_below_sound (suc bound) test h x small = elim (Bool-cases (all_below bound test)) [
  | inl e ↦ ground (arith, all_below_sound bound test e x)
  | inr e ↦ absurd (ground arith)
]

-- Two functions that agree on every number below `n`, by evaluation.
pub eq_below :
    (n : ℕ) (f g : ℕ → ℕ) → all_below n (λ x. f x == g x) ≡ true → (x : ℕ) → x < n → f x ≡ g x
eq_below n f g h x lt = (==_iff (f x) (g x)).0 (all_below_sound n (λ y. f y == g y) h x lt)

-- `bit_or` digit by digit, on so many digits.
abbrev or_on : ℕ → ℕ → ℕ → ℕ
or_on fuel x y = digits (λ rest. rest) max fuel x y

-- More digits than the left number has change nothing.
or_on_enough : (x y fuel more : ℕ) → x ≤ fuel → x ≤ more → or_on fuel x y ≡ or_on more x y
or_on_enough zero y zero zero enough enough' = refl
or_on_enough zero y zero (suc more) enough enough' = refl
or_on_enough zero y (suc fuel) zero enough enough' = refl
or_on_enough zero y (suc fuel) (suc more) enough enough' = refl
or_on_enough (suc x) y zero more enough enough' = absurd (omega arith)
or_on_enough (suc x) y (suc fuel) zero enough enough' = absurd (omega arith)
or_on_enough (suc x) y (suc fuel) (suc more) enough enough' =
    let halved = or_on_enough (suc x / 2) (y / 2) fuel more (omega arith) (omega arith) in
    omega (arith, halved)

zero-bit_or : (y : ℕ) → bit_or 0 y ≡ y
zero-bit_or y = bit_or-bitwise 0 y

bit_or_step : (x y : ℕ) → bit_or x y ≡ bit_or (x / 2) (y / 2) * 2 + max (x % 2) (y % 2)
bit_or_step zero y = omega (arith, zero-bit_or (y / 2), zero-bit_or y)
bit_or_step (suc x) y =
    let half = suc x / 2 in
    let enough = or_on_enough half (y / 2) x half (omega arith) (omega arith) in
    omega (arith, enough, bit_or-bitwise half (y / 2), bit_or-bitwise (suc x) y)

bit_or-zero_below : (bound x : ℕ) → x ≤ bound → bit_or x 0 ≡ x
bit_or-zero_below bound zero small = refl
bit_or-zero_below zero (suc x) small = absurd (omega arith)
bit_or-zero_below (suc bound) (suc x) small =
    let half = bit_or-zero_below bound (suc x / 2) (omega arith) in
    omega (arith, half, bit_or_step (suc x) 0)

bit_or-zero : (x : ℕ) → bit_or x 0 ≡ x
bit_or-zero x = bit_or-zero_below x x (omega arith)

-- Joining `k` low bits to a number whose `k` low bits are clear is an addition.
pub bit_or-join : (k n b : ℕ) → b < 2 ^ k → bit_or (n * 2 ^ k) b ≡ n * 2 ^ k + b
bit_or-join zero n zero h = bit_or-zero (n * 2 ^ 0) ∙ omega arith
bit_or-join zero n (suc b) h = absurd (omega arith)
bit_or-join (suc k) n b h =
    let p : 2 ^ suc k ≡ 2 ^ k * 2 = pow-suc 2 k in
    let whole : n * 2 ^ suc k ≡ n * 2 ^ k * 2 = ap (λ (t : ℕ). n * t) p ∙ omega arith in
    let half : n * 2 ^ suc k / 2 ≡ n * 2 ^ k = omega arith in
    let joined : bit_or (n * 2 ^ suc k / 2) (b / 2) ≡ n * 2 ^ k + b / 2 =
      rw half (bit_or-join k n (b / 2) (omega arith)) in
    omega (arith, bit_or_step (n * 2 ^ suc k) b)
