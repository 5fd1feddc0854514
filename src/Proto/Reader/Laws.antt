-- ===== src/Proto/Reader/Laws.antt =====
-- Every read ends, and a word takes a byte at least.
use goros.Common.{ℕ, zero, suc, ◌+◌, ◌<◌, ◌≤◌, Text, [], ◌∷◌, some, length}
use goros.Common.{true, false, ◌≡◌, arith, drop, is_empty, ◌-◌, inl, inr, Bool-cases}
use goros.Roserr.{Result, ok, err, GoError, Result-cases}
use goros.Proto.Sentence.{Sentence, new_sentence}
use goros.Proto.Length.{read_full, read_number, read_length, length_from}
use goros.Proto.Reader.{read_word, add_word, read_loop, read_sentence}

length-drop : (n : ℕ) (s : Text) → length (drop n s) ≡ length s - n
length-drop zero s = omega arith
length-drop (suc n) [] = omega arith
length-drop (suc n) (x ∷ s) = omega (arith, length-drop n s)

read_full-shortens :
    (n : ℕ) (s b rest : Text) → read_full n s ≡ ok (b, rest) → length rest + n ≡ length s
unfolding read_full
read_full-shortens n s b rest e = ground (arith, length-drop n s)

read_number-shortens :
    (n : ℕ) (s : Text) (v : ℕ) (rest : Text)
    → read_number n s ≡ ok (v, rest)
    → length rest + n ≡ length s
unfolding read_number
read_number-shortens n s v rest e = elim (Result-cases (read_full n s)) [
  | inl (x, p) ↦ absurd (ground (arith, p))
  | inr ((b, r), p) ↦ ground (arith, p, read_full-shortens n s b r p)
]

length_from-shortens :
    (l : ℕ) (s : Text) (v : ℕ) (rest : Text)
    → length_from l s ≡ ok (v, rest)
    → length rest ≤ length s
unfolding length_from read_number read_full
length_from-shortens l s v rest e =
    ground (arith, length-drop 1 s, length-drop 2 s, length-drop 3 s, length-drop 4 s)

read_length-shortens :
    (s : Text) (v : ℕ) (rest : Text) → read_length s ≡ ok (v, rest) → length rest < length s
unfolding read_length
read_length-shortens s v rest e = elim (Result-cases (read_number 1 s)) [
  | inl (x, p) ↦ absurd (ground (arith, p))
  | inr ((l, r), p) ↦
      ground (arith, p, read_number-shortens 1 s l r p, length_from-shortens l r v rest)
]

read_word-shortens : (s b rest : Text) → read_word s ≡ ok (b, rest) → length rest < length s
unfolding read_word
read_word-shortens s b rest e = elim (Result-cases (read_length s)) [
  | inl (x, p) ↦ absurd (ground (arith, p))
  | inr ((l, r), p) ↦ ground (arith, p, read_length-shortens s l r p, read_full-shortens l r b rest)
]

-- The rounds of the loop: a failed read, the end of the sentence, a refused word, a word taken.
module _ (fuel : ℕ) (sen : Sentence) (s : Text) where
  pub read_loop_failed :
      (e : GoError) → read_word s ≡ err e → read_loop (suc fuel) sen s ≡ some (err e)
  unfolding read_loop
  read_loop_failed e p = rw (p, read_loop)

  pub read_loop_end :
      (b rest : Text)
      → read_word s ≡ ok (b, rest)
      → is_empty b ≡ true
      → read_loop (suc fuel) sen s ≡ some (ok (sen, rest))
  unfolding read_loop
  read_loop_end b rest p t = rw (p, read_loop) (rw (t, read_loop))

  pub read_loop_refused :
      (b rest : Text) (e : GoError)
      → read_word s ≡ ok (b, rest)
      → is_empty b ≡ false
      → add_word sen b ≡ err e
      → read_loop (suc fuel) sen s ≡ some (err e)
  unfolding read_loop
  read_loop_refused b rest e p t q = rw (p, read_loop) (rw (t, read_loop) (rw (q, read_loop)))

  pub read_loop_taken :
      (b rest : Text) (sen' : Sentence)
      → read_word s ≡ ok (b, rest)
      → is_empty b ≡ false
      → add_word sen b ≡ ok sen'
      → read_loop (suc fuel) sen s ≡ read_loop fuel sen' rest
  unfolding read_loop
  read_loop_taken b rest sen' p t q = rw (p, read_loop) (rw (t, read_loop) (rw (q, read_loop)))

read_loop-total :
    (fuel : ℕ) (sen : Sentence) (s : Text)
    → length s < fuel
    → (r : Result (Sentence × Text)) × (read_loop fuel sen s ≡ some r)
read_loop-total zero sen s h = absurd (omega arith)
read_loop-total (suc fuel) sen s h = elim (Result-cases (read_word s)) [
  | inl (e, p) ↦ (err e, read_loop_failed fuel sen s e p)
  | inr ((b, rest), p) ↦ elim (Bool-cases (is_empty b)) [
    | inl t ↦ (ok (sen, rest), read_loop_end fuel sen s b rest p t)
    | inr t ↦ elim (Result-cases (add_word sen b)) [
      | inl (e, q) ↦ (err e, read_loop_refused fuel sen s b rest e p t q)
      | inr (sen', q) ↦
          rw (read_loop_taken fuel sen s b rest sen' p t q)
            (read_loop-total fuel sen' rest (omega (arith, read_word-shortens s b rest p)))
    ]
  ]
]

read_loop-shortens :
    (fuel : ℕ) (sen : Sentence) (s : Text) (sen' : Sentence) (rest : Text)
    → read_loop fuel sen s ≡ some (ok (sen', rest))
    → length rest < length s
read_loop-shortens zero sen s sen' rest e = absurd (unfold read_loop in (cc e))
read_loop-shortens (suc fuel) sen s sen' rest e = elim (Result-cases (read_word s)) [
  | inl (x, p) ↦ absurd (cc (read_loop_failed fuel sen s x p))
  | inr ((b, t), p) ↦ elim (Bool-cases (is_empty b)) [
    | inl q ↦ ground (arith, read_loop_end fuel sen s b t p q, read_word-shortens s b t p)
    | inr q ↦ elim (Result-cases (add_word sen b)) [
      | inl (x, r) ↦ absurd (cc (read_loop_refused fuel sen s b t x p q r))
      | inr (next, r) ↦ ground (
        arith,
        read_loop_taken fuel sen s b t next p q r,
        read_word-shortens s b t p,
        read_loop-shortens fuel next t sen' rest,
      )
    ]
  ]
]

pub read_sentence-shortens :
    (s : Text) (sen : Sentence) (rest : Text)
    → read_sentence s ≡ some (ok (sen, rest))
    → length rest < length s
unfolding read_sentence
read_sentence-shortens s sen rest e = read_loop-shortens (suc (length s)) new_sentence s sen rest e

-- `ReadSentence` returns on every input: a sentence with the rest of the stream, or an error.
pub read_sentence-total : (s : Text) → (r : Result (Sentence × Text)) × (read_sentence s ≡ some r)
unfolding read_sentence
read_sentence-total s = read_loop-total (suc (length s)) new_sentence s (omega arith)
