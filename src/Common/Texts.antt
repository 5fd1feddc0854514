-- ===== src/Common/Texts.antt =====
-- Texts as the bytes that a Go string holds, with the functions of Go's `strings` and `bytes`
-- packages that the program calls.
use Prim.Native.Nat.{ℕ}
use Prim.Native.Char.{code}
use Prim.Native.String.{String}
use mathlib.Core.Path.{◌≡◌, refl}
use mathlib.Core.Logic.{◌≢◌, ◌↔◌, inl, inr}
use mathlib.Core.Bool.{Bool, true, false, ◌&&◌, ◌||◌}
use mathlib.Core.Option.{Option, none, some}
use mathlib.Core.List.{List, [], ◌∷◌, ◌++◌}
use native.Mathlib.Omega.{arith}
use goros.Common.Tests.{◌==◌, leb, ==_iff, if◌then◌else◌, Bool-cases}

abbrev pub Text : Type 0
Text = List ℕ

-- The bytes of an ASCII literal.
abbrev pub text : String → Text
text String.[] = []
text (String.◌∷◌ c s) = code c ∷ text s

abbrev pub is_empty : Text → Bool
is_empty [] = true
is_empty (_ ∷ _) = false

-- `a == b` on strings.
unfoldable pub text_eq : Text → Text → Bool
text_eq [] [] = true
text_eq [] (y ∷ ys) = false
text_eq (x ∷ xs) [] = false
text_eq (x ∷ xs) (y ∷ ys) = x == y && text_eq xs ys

text_eq→eq : (a b : Text) → text_eq a b ≡ true → a ≡ b
unfolding text_eq
text_eq→eq [] [] h = refl
text_eq→eq [] (y ∷ ys) h = cc
text_eq→eq (x ∷ xs) [] h = cc
text_eq→eq (x ∷ xs) (y ∷ ys) h = ground (arith, text_eq→eq xs ys)

pub text_eq_refl : (a : Text) → text_eq a a ≡ true
unfolding text_eq
text_eq_refl [] = refl
text_eq_refl (x ∷ xs) = ground (arith, text_eq_refl xs)

pub text_eq_iff : (a b : Text) → (text_eq a b ≡ true) ↔ (a ≡ b)
text_eq_iff a b = (text_eq→eq a b, λ e. rw e (text_eq_refl b))

pub text_eq-of_ne : (a b : Text) → a ≢ b → text_eq a b ≡ false
text_eq-of_ne a b h = elim (Bool-cases (text_eq a b)) [
  | inl e ↦ absurd (h (text_eq→eq a b e))
  | inr e ↦ e
]

-- `strings.HasPrefix`, the prefix first.
abbrev pub has_prefix : Text → Text → Bool
has_prefix [] b = true
has_prefix (p ∷ ps) [] = false
has_prefix (p ∷ ps) (c ∷ cs) = p == c && has_prefix ps cs

-- `b[len(prefix):]`
abbrev pub drop_prefix : Text → Text → Text
drop_prefix [] b = b
drop_prefix (p ∷ ps) [] = []
drop_prefix (p ∷ ps) (c ∷ cs) = drop_prefix ps cs

-- What stands before the first `c`, and what stands behind it; the whole and `none` without one.
unfoldable pub split_at_byte : ℕ → Text → Text × Option Text
split_at_byte c [] = ([], none)
split_at_byte c (x ∷ xs) =
    let (before, after) = split_at_byte c xs in
    if x == c then ([], some xs) else (x ∷ before, after)

-- `strings.Join`
abbrev pub join_with : Text → List Text → Text
join_with sep [] = []
join_with sep (w ∷ []) = w
join_with sep (w ∷ v ∷ r) = w ++ (sep ++ join_with sep (v ∷ r))

-- `strings.FieldsFunc` with a test for one byte: the pieces between, the empty ones dropped.
abbrev field_step : ℕ → ℕ → Text × List Text → Text × List Text
field_step c x (word, rest) =
    if x == c then ([], (if is_empty word then rest else word ∷ rest)) else (x ∷ word, rest)

fields_from : ℕ → Text → Text × List Text
fields_from c [] = ([], [])
fields_from c (x ∷ xs) = field_step c x (fields_from c xs)

unfoldable pub fields_func : ℕ → Text → List Text
unfolding fields_from
fields_func c s = let (word, rest) = fields_from c s in if is_empty word then rest else word ∷ rest

-- `strings.TrimRight` and `strings.TrimLeft` by a test.
unfoldable pub trim_right_by : (ℕ → Bool) → Text → Text
trim_right_by p [] = []
trim_right_by p (x ∷ xs) =
    let rest = trim_right_by p xs in if is_empty rest && p x then [] else x ∷ rest

unfoldable pub trim_left_by : (ℕ → Bool) → Text → Text
trim_left_by p [] = []
trim_left_by p (x ∷ xs) = let rest = trim_left_by p xs in if p x then rest else x ∷ xs

-- ASCII white space.
abbrev pub is_space : ℕ → Bool
is_space c = leb 9 c && leb c 13 || c == 32

-- `strings.TrimSpace`
unfoldable pub trim_space : Text → Text
unfolding trim_right_by trim_left_by
trim_space s = trim_right_by is_space (trim_left_by is_space s)

-- No byte of the text is `c`.
abbrev pub Lacks : ℕ → Text → Type 0
Lacks c [] = Unit
Lacks c (x ∷ xs) = (x ≢ c) × Lacks c xs

pub split_at_byte-append :
    (c : ℕ) (a b : Text) → Lacks c a → split_at_byte c (a ++ (c ∷ b)) ≡ (a, some b)
unfolding split_at_byte
split_at_byte-append c [] b h = ground arith
split_at_byte-append c (x ∷ xs) b h = ground (arith, split_at_byte-append c xs b)

pub split_at_byte-Lacks : (c : ℕ) (s : Text) → Lacks c (split_at_byte c s).0
unfolding split_at_byte
split_at_byte-Lacks c [] = tt
split_at_byte-Lacks c (x ∷ xs) = elim (Bool-cases (x == c)) [
  | inl e ↦ rw e tt
  | inr e ↦ rw e ((λ p. cc (e, (==_iff x c).1 p)), split_at_byte-Lacks c xs)
]
