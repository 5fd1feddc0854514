-- ===== src/Common/Sort.antt =====
-- `sort.Strings`: strings are ordered by their bytes, so the result is the one ascending rearrangement.
use mathlib.Core.Path.{◌≡◌, refl, ap₂, ◌∙◌}
use mathlib.Core.Logic.{inl, inr, ∥∥₁_elim}
use mathlib.Core.Bool.{Bool, true, false, ◌&&◌, ◌||◌}
use mathlib.Core.List.{List, [], ◌∷◌, Perm, Permᴰ}
use mathlib.Core.List.Perm
use native.Mathlib.Omega.{arith}
use goros.Common.Tests.{ltb, ◌==◌, if◌then◌else◌, Bool-cases}
use goros.Common.Texts.{Text}
use goros.Common.Lists.{All}

-- `a <= b` on strings.
unfoldable pub text_le : Text → Text → Bool
text_le [] b = true
text_le (x ∷ xs) [] = false
text_le (x ∷ xs) (y ∷ ys) = ltb x y || x == y && text_le xs ys

pub text_le-total : (a b : Text) → text_le a b ≡ false → text_le b a ≡ true
unfolding text_le
text_le-total [] b h = cc
text_le-total (x ∷ xs) [] h = refl
text_le-total (x ∷ xs) (y ∷ ys) h = ground (arith, text_le-total xs ys)

pub text_le_antisymm : (a b : Text) → text_le a b ≡ true → text_le b a ≡ true → a ≡ b
unfolding text_le
text_le_antisymm [] [] h k = refl
text_le_antisymm [] (y ∷ ys) h k = cc
text_le_antisymm (x ∷ xs) [] h k = cc
text_le_antisymm (x ∷ xs) (y ∷ ys) h k = ground (arith, text_le_antisymm xs ys)

pub text_le_trans : (a b c : Text) → text_le a b ≡ true → text_le b c ≡ true → text_le a c ≡ true
unfolding text_le
text_le_trans [] b c h k = refl
text_le_trans (x ∷ xs) [] c h k = cc
text_le_trans (x ∷ xs) (y ∷ ys) [] h k = cc
text_le_trans (x ∷ xs) (y ∷ ys) (z ∷ zs) h k = ground (arith, text_le_trans xs ys zs)

unfoldable pub sort_insert : Text → List Text → List Text
sort_insert x [] = x ∷ []
sort_insert x (y ∷ ys) = if text_le x y then x ∷ y ∷ ys else y ∷ sort_insert x ys

unfoldable pub sort_texts : List Text → List Text
unfolding sort_insert
sort_texts [] = []
sort_texts (x ∷ xs) = sort_insert x (sort_texts xs)

sort_insert_comm :
    (x y : Text) (l : List Text) → sort_insert x (sort_insert y l) ≡ sort_insert y (sort_insert x l)
unfolding sort_insert
sort_insert_comm x y [] = ground (arith, text_le-total x y, text_le_antisymm x y)
sort_insert_comm x y (z ∷ l) = ground (
  arith,
  text_le-total x y,
  text_le_antisymm x y,
  text_le_trans x y z,
  text_le_trans y x z,
  text_le-total y x,
  text_le-total x z,
  text_le-total y z,
  sort_insert_comm x y l,
)

sort_texts-permᴰ : {l r : List Text} → Permᴰ l r → sort_texts l ≡ sort_texts r
unfolding sort_texts
sort_texts-permᴰ Permᴰ.nil = refl
sort_texts-permᴰ (Permᴰ.cons e p) = ap₂ sort_insert e (sort_texts-permᴰ p)
sort_texts-permᴰ (Permᴰ.swap {a} {b} {l} e f) = sort_insert_comm a b (sort_texts l) ∙ cc (e, f)
sort_texts-permᴰ (Permᴰ.trans p q) = sort_texts-permᴰ p ∙ sort_texts-permᴰ q

Texts-set : IsSet (List Text)
Texts-set = hlevel

-- The sorted list does not depend on the order in which the elements came.
pub sort_texts-perm : {l r : List Text} → Perm l r → sort_texts l ≡ sort_texts r
sort_texts-perm p = ∥∥₁_elim p (Texts-set _ _) sort_texts-permᴰ

-- Each element is at most the next ones.
abbrev pub IsAscending : List Text → Type 0
IsAscending [] = Unit
IsAscending (x ∷ xs) = All (λ y. text_le x y ≡ true) xs × IsAscending xs

All-sort_insert {κ} :
    (P : Text → Type κ) (x : Text) (l : List Text) → P x → All P l → All P (sort_insert x l)
unfolding sort_insert
All-sort_insert P x [] px pl = (px, tt)
All-sort_insert P x (y ∷ l) px pl = elim (Bool-cases (text_le x y)) [
  | inl e ↦ rw e (px, pl)
  | inr e ↦ rw e (pl.0, All-sort_insert P x l px pl.1)
]

pub All-sort_texts {κ} : (P : Text → Type κ) (l : List Text) → All P l → All P (sort_texts l)
unfolding sort_texts
All-sort_texts P [] h = tt
All-sort_texts P (x ∷ l) h = All-sort_insert P x (sort_texts l) h.0 (All-sort_texts P l h.1)

All-sort_insert_back {κ} :
    (P : Text → Type κ) (x : Text) (l : List Text) → All P (sort_insert x l) → P x × All P l
unfolding sort_insert
All-sort_insert_back P x [] h = h
All-sort_insert_back P x (y ∷ l) h = elim (Bool-cases (text_le x y)) [
  | inl e ↦ rw e at h
  | inr e ↦ let h' = rw e at h in let (px, pl) = All-sort_insert_back P x l h'.1 in (px, (h'.0, pl))
]

pub All-sort_texts_back {κ} : (P : Text → Type κ) (l : List Text) → All P (sort_texts l) → All P l
unfolding sort_texts
All-sort_texts_back P [] h = tt
All-sort_texts_back P (x ∷ l) h =
    let (px, pl) = All-sort_insert_back P x (sort_texts l) h in (px, All-sort_texts_back P l pl)

above_trans :
    (x y : Text) (l : List Text)
    → text_le x y ≡ true
    → All (λ z. text_le y z ≡ true) l
    → All (λ z. text_le x z ≡ true) l
above_trans x y [] h a = tt
above_trans x y (z ∷ l) h a = (text_le_trans x y z h a.0, above_trans x y l h a.1)

sort_insert-IsAscending : (x : Text) (l : List Text) → IsAscending l → IsAscending (sort_insert x l)
unfolding sort_insert
sort_insert-IsAscending x [] s = (tt, tt)
sort_insert-IsAscending x (y ∷ l) s = elim (Bool-cases (text_le x y)) [
  | inl e ↦ rw e ((e, above_trans x y l e s.0), s)
  | inr e ↦ rw e (
    All-sort_insert (λ z. text_le y z ≡ true) x l (text_le-total x y e) s.0,
    sort_insert-IsAscending x l s.1,
  )
]

pub sort_texts-IsAscending : (l : List Text) → IsAscending (sort_texts l)
unfolding sort_texts
sort_texts-IsAscending [] = tt
sort_texts-IsAscending (x ∷ l) = sort_insert-IsAscending x (sort_texts l) (sort_texts-IsAscending l)

sort_insert-perm : (x : Text) (l : List Text) → Perm (sort_insert x l) (x ∷ l)
unfolding sort_insert
sort_insert-perm x [] = Perm.rfl
sort_insert-perm x (y ∷ l) = elim (Bool-cases (text_le x y)) [
  | inl e ↦ rw e Perm.rfl
  | inr e ↦ rw e (Perm.trans (Perm.cons y (sort_insert-perm x l)) (Perm.swap x y l))
]

pub sort_texts-perm_self : (l : List Text) → Perm (sort_texts l) l
unfolding sort_texts
sort_texts-perm_self [] = Perm.rfl
sort_texts-perm_self (x ∷ l) =
    Perm.trans (sort_insert-perm x (sort_texts l)) (Perm.cons x (sort_texts-perm_self l))
