-- ===== src/Common/Assoc.antt =====
-- A Go map with string keys as an association list. Its order is the order in which a `range`
-- over the map meets the keys.
use mathlib.Core.Path.{◌≡◌, refl, subst}
use mathlib.Core.Option.{Option, none, some}
use mathlib.Core.List.{List, [], ◌∷◌}
use native.Mathlib.Omega.{arith}
use mathlib.Core.Logic.{◌≢◌, inl, inr}
use goros.Common.Lists.{All}
use goros.Common.Tests.{if◌then◌else◌, Bool-cases}
use goros.Common.Texts.{Text, text_eq, text_eq_iff, text_eq_refl, text_eq-of_ne}

abbrev pub Assoc {ℓ} : Type ℓ → Type ℓ
Assoc V = List (Text × V)

module _ {ℓ} {V : Type ℓ} where
  -- `v, ok := m[k]`
  unfoldable pub lookup : Text → Assoc V → Option V
  lookup k [] = none
  lookup k ((j, v) ∷ m) = if text_eq j k then some v else lookup k m

  -- `m[k] = v`
  unfoldable pub insert : Text → V → Assoc V → Assoc V
  insert k v [] = (k, v) ∷ []
  insert k v ((j, w) ∷ m) = if text_eq j k then (j, v) ∷ m else (j, w) ∷ insert k v m

  -- `delete(m, k)`
  unfoldable pub erase : Text → Assoc V → Assoc V
  erase k [] = []
  erase k ((j, w) ∷ m) = if text_eq j k then erase k m else (j, w) ∷ erase k m

  pub lookup-insert :
      (k j : Text) (v : V) (m : Assoc V)
      → lookup j (insert k v m) ≡ (if text_eq k j then some v else lookup j m)
  unfolding lookup insert
  lookup-insert k j v [] = refl
  lookup-insert k j v ((i, w) ∷ m) = ground (
    arith,
    text_eq_iff k j,
    text_eq_iff i k,
    text_eq_iff i j,
    text_eq_refl k,
    lookup-insert k j v m,
  )

  pub lookup-erase :
      (k j : Text) (m : Assoc V) → lookup j (erase k m) ≡ (if text_eq k j then none else lookup j m)
  unfolding lookup erase
  lookup-erase k j [] = ground arith
  lookup-erase k j ((i, w) ∷ m) =
      ground (arith, text_eq_iff k j, text_eq_iff i k, text_eq_iff i j, lookup-erase k j m)

-- `m[k]` on a map of strings: the zero value when the key is absent.
unfoldable pub get_or_empty : Text → Assoc Text → Text
get_or_empty k m = elim (lookup k m) [ none ↦ [] | some v ↦ v ]

-- The keys in the order of a `range`.
abbrev pub keys {ℓ} : {V : Type ℓ} → Assoc V → List Text
keys [] = []
keys ((k, v) ∷ m) = k ∷ keys m

module _ {ℓ κ} {V : Type ℓ} (P : V → Type κ) where
  -- Every value of the map.
  abbrev pub Values : Assoc V → Type κ
  Values [] = Unit
  Values ((k, v) ∷ m) = P v × Values m

  pub Values-insert : (k : Text) (v : V) (m : Assoc V) → P v → Values m → Values (insert k v m)
  unfolding insert
  Values-insert k v [] p h = (p, tt)
  Values-insert k v ((j, w) ∷ m) p h = elim (Bool-cases (text_eq j k)) [
    | inl e ↦ rw e (p, h.1)
    | inr e ↦ rw e (h.0, Values-insert k v m p h.1)
  ]

  pub Values-erase : (k : Text) (m : Assoc V) → Values m → Values (erase k m)
  unfolding erase
  Values-erase k [] h = tt
  Values-erase k ((j, w) ∷ m) h = elim (Bool-cases (text_eq j k)) [
    | inl e ↦ rw e (Values-erase k m h.1)
    | inr e ↦ rw e (h.0, Values-erase k m h.1)
  ]

  pub Values-lookup : (k : Text) (m : Assoc V) {v : V} → Values m → lookup k m ≡ some v → P v
  unfolding lookup
  Values-lookup k [] h e = absurd (cc)
  Values-lookup k ((j, w) ∷ m) h e = elim (Bool-cases (text_eq j k)) [
    | inl t ↦ subst P (cc (rw t at e)) h.0
    | inr t ↦ Values-lookup k m h.1 (rw t at e)
  ]

module _ {ℓ κ} {V : Type ℓ} (P : Text → Type κ) where
  pub keys-insert :
      (k : Text) (v : V) (m : Assoc V) → P k → All P (keys m) → All P (keys (insert k v m))
  unfolding insert
  keys-insert k v [] p h = (p, tt)
  keys-insert k v ((j, w) ∷ m) p h = elim (Bool-cases (text_eq j k)) [
    | inl e ↦ rw e h
    | inr e ↦ rw e (h.0, keys-insert k v m p h.1)
  ]

  pub keys-erase : (k : Text) (m : Assoc V) → All P (keys m) → All P (keys (erase k m))
  unfolding erase
  keys-erase k [] h = tt
  keys-erase k ((j, w) ∷ m) h = elim (Bool-cases (text_eq j k)) [
    | inl e ↦ rw e (keys-erase k m h.1)
    | inr e ↦ rw e (h.0, keys-erase k m h.1)
  ]

module _ {ℓ κ} {V : Type ℓ} (P : Text → Type κ) where
  pub keys-lookup : (k : Text) (m : Assoc V) {v : V} → All P (keys m) → lookup k m ≡ some v → P k
  unfolding lookup
  keys-lookup k [] h e = absurd (cc)
  keys-lookup k ((j, w) ∷ m) h e = elim (Bool-cases (text_eq j k)) [
    | inl t ↦ subst P ((text_eq_iff j k).0 t) h.0
    | inr t ↦ keys-lookup k m h.1 (rw t at e)
  ]

module _ {ℓ} {V : Type ℓ} where
  -- A key that no entry has is not found.
  pub lookup-absent : (k : Text) (m : Assoc V) → All (λ j. j ≢ k) (keys m) → lookup k m ≡ none
  unfolding lookup
  lookup-absent k [] h = refl
  lookup-absent k ((j, w) ∷ m) h = rw (text_eq-of_ne j k h.0) (lookup-absent k m h.1)

  -- A key that is not found is no entry's.
  pub absent_keys : (k : Text) (m : Assoc V) → lookup k m ≡ none → All (λ j. j ≢ k) (keys m)
  unfolding lookup
  absent_keys k [] h = tt
  absent_keys k ((j, v) ∷ m) h = elim (Bool-cases (text_eq j k)) [
    | inl t ↦ absurd (cc (rw t at h))
    | inr t ↦ (λ e. cc (t, (text_eq_iff j k).1 e), absent_keys k m (rw t at h))
  ]
