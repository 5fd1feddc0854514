-- ===== src/Proto/Reader/RoundTrip.antt =====
-- `ReadSentence` reads what a sentence of the writer put on the wire.
use goros.Common.{ℕ, zero, suc, ◌<◌, ◌≤◌, ◌^◌, Text, List, [], ◌∷◌, ◌++◌, some, false, length}
use goros.Common.{◌≡◌, refl, arith, is_empty, inl, inr, All, length-append, append_assoc, ◌∙◌}
use goros.Roserr.{Result, ok, err, Result-cases}
use goros.Proto.Sentence.{Sentence, new_sentence}
use goros.Proto.Length.{encode_length}
use goros.Proto.Length.Bytes.{read_full-exact}
use goros.Proto.Length.RoundTrip.{read_length-encode_length}
use goros.Proto.Writer.Laws.{word_bytes, words_bytes, sentence_bytes}
use goros.Proto.Reader.{read_word, add_word, read_loop, read_sentence}
use goros.Proto.Reader.Laws.{read_loop_end, read_loop_refused, read_loop_taken}
use native.Mathlib.Nat.{mod-eq_of_lt}

-- A word that is no end of a sentence, and short enough for its length to be encoded.
abbrev pub IsWord : Text → Type 0
IsWord w = (is_empty w ≡ false) × (length w < 2 ^ 32)

-- A word on the wire is read back, whatever follows it.
pub read_word-word_bytes :
    (w rest : Text) → length w < 2 ^ 32 → read_word (word_bytes w ++ rest) ≡ ok (w, rest)
unfolding read_word
read_word-word_bytes w rest h =
    rw (append_assoc, read_length-encode_length (length w) (w ++ rest))
      (rw (mod-eq_of_lt h) (read_full-exact w rest))

-- The sentence that the words make up, with no stream in sight.
unfoldable pub add_words : Sentence → List Text → Result Sentence
add_words sen [] = ok sen
add_words sen (w ∷ ws) = elim (add_word sen w) [ err e ↦ err e | ok sen' ↦ add_words sen' ws ]

-- What the reader answers: the sentence with the bytes behind it, or the error.
abbrev pub answer : Result Sentence → Text → Result (Sentence × Text)
answer (ok sen) rest = ok (sen, rest)
answer (err e) rest = err e

sentence_split :
    (w : Text) (ws : List Text) (rest : Text)
    → sentence_bytes (w ∷ ws) ++ rest ≡ word_bytes w ++ (sentence_bytes ws ++ rest)
sentence_split w ws rest = simp append_assoc

read_loop-words :
    (ws : List Text) (fuel : ℕ) (sen : Sentence) (rest : Text)
    → All IsWord ws
    → length ws < fuel
    → read_loop fuel sen (sentence_bytes ws ++ rest) ≡ some (answer (add_words sen ws) rest)
unfolding add_words
read_loop-words ws zero sen rest h f = absurd (omega arith)
read_loop-words [] (suc fuel) sen rest h f =
    read_loop_end fuel sen (sentence_bytes [] ++ rest) [] rest
      (read_word-word_bytes [] rest (omega arith)) refl
read_loop-words (w ∷ ws) (suc fuel) sen rest h f =
    let tail = sentence_bytes ws ++ rest in
    let got = read_word-word_bytes w tail h.0.1 in
    rw (sentence_split w ws rest) (elim (Result-cases (add_word sen w)) [
      | inl (e, q) ↦
          read_loop_refused fuel sen (word_bytes w ++ tail) w tail e got h.0.0 q ∙ rw (q, add_words)
      | inr (sen', q) ↦
          read_loop_taken fuel sen (word_bytes w ++ tail) w tail sen' got h.0.0 q
          ∙ read_loop-words ws fuel sen' rest h.1 (omega arith)
          ∙ rw (q, add_words)
    ])

encode_length_nonempty : (l : ℕ) → 0 < length (encode_length l)
unfolding encode_length
encode_length_nonempty l = ground arith

length-words_bytes : (ws : List Text) → length ws ≤ length (words_bytes ws)
length-words_bytes [] = omega arith
length-words_bytes (w ∷ ws) = omega (
  arith,
  length-append (word_bytes w) (words_bytes ws),
  length-append (encode_length (length w)) w,
  encode_length_nonempty (length w),
  length-words_bytes ws,
)

enough_rounds :
    (ws : List Text) (rest : Text) → length ws < suc (length (sentence_bytes ws ++ rest))
enough_rounds ws rest = omega (
  arith,
  length-append (sentence_bytes ws) rest,
  length-append (words_bytes ws) (word_bytes []),
  length-words_bytes ws,
)

-- The bytes of a sentence whose words are not empty and shorter than 2^32 are read to what the words
-- make up, an error included, and the bytes behind the sentence stay in the stream.
pub read_sentence-sentence_bytes :
    (ws : List Text) (rest : Text)
    → All IsWord ws
    → read_sentence (sentence_bytes ws ++ rest) ≡ some (answer (add_words new_sentence ws) rest)
unfolding read_sentence
read_sentence-sentence_bytes ws rest h =
    read_loop-words ws (suc (length (sentence_bytes ws ++ rest))) new_sentence rest h
      (enough_rounds ws rest)
