-- ===== src/Common/Decimal.antt =====
-- `%d` of a number that is not negative.
use Prim.Native.Nat.{ℕ, zero, suc, ◌+◌, ◌-◌, ◌*◌, ◌/◌, ◌%◌, ◌<◌}
use mathlib.Core.Path.{◌≡◌, refl, ap, sym, ◌∙◌}
use mathlib.Core.List.{[], ◌∷◌, ◌++◌}
use native.Mathlib.Omega.{arith}
use goros.Common.Tests.{ltb, if◌then◌else◌}
use goros.Common.Texts.{Text}

digits : ℕ → ℕ → Text
digits zero n = []
digits (suc fuel) n =
    let front = digits fuel (n / 10) in
    if ltb n 10 then (48 + n) ∷ [] else front ++ ((48 + n % 10) ∷ [])

-- A number has at most as many digits as it counts, and one.
unfoldable pub decimal : ℕ → Text
unfolding digits
decimal n = digits (suc n) n

value : ℕ → Text → ℕ
value acc [] = acc
value acc (d ∷ ds) = value (acc * 10 + (d - 48)) ds

value-append : (acc d : ℕ) (ds : Text) → value acc (ds ++ (d ∷ [])) ≡ value acc ds * 10 + (d - 48)
unfolding value
value-append acc d [] = refl
value-append acc d (x ∷ ds) = value-append (acc * 10 + (x - 48)) d ds

value-digits : (fuel n : ℕ) → n < fuel → value 0 (digits fuel n) ≡ n
unfolding digits value
value-digits zero n h = absurd (omega arith)
value-digits (suc fuel) n h =
    ground (arith, value-append 0 (48 + n % 10) (digits fuel (n / 10)), value-digits fuel (n / 10))

-- Different numbers print differently.
pub decimal_injective : (n m : ℕ) → decimal n ≡ decimal m → n ≡ m
unfolding decimal
decimal_injective n m e =
    sym (value-digits (suc n) n (omega arith))
    ∙ ap (value 0) e
    ∙ value-digits (suc m) m (omega arith)
