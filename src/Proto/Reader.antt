-- ===== src/Proto/Reader.antt =====
-- proto/reader.go: words and sentences read from a stream, the list of the bytes that it still
-- delivers. A loop that reads words takes fuel; `none` means that the fuel ran out.
pub mod Laws
pub mod RoundTrip
use goros.Common.{ℕ, zero, suc, Text, text, List, [], ◌∷◌, ◌++◌, Option, none, some, true, false}
use goros.Common.{if◌then◌else◌, is_empty, has_prefix, drop_prefix, split_at_byte, length}
use goros.Common.Assoc.{insert}
use goros.Roserr.{Result, ok, err, invalid_word, ◌>>=◌}
use goros.Proto.Sentence.{Pair, Sentence, new_sentence}
use goros.Proto.Length.{read_full, read_length}

unfoldable pub read_word : Text → Result (Text × Text)
read_word s = do (l, rest) ← read_length s; read_full l rest

-- `bytes.SplitN(b, "=", 2)` with an empty second part where there is none
unfoldable pub split_pair : Text → Pair
split_pair b =
    let (k, v) = split_at_byte b'=' b in
    record { key = k; value = elim v [ none ↦ [] | some t ↦ t ] }

-- What a round of `ReadSentence` does with a word that is not empty.
unfoldable pub add_word : Sentence → Text → Result Sentence
add_word sen b =
    if is_empty sen.word
    then ok (record sen { word = b })
    else if has_prefix (text ".tag=") b
    then ok (record sen { tag = drop_prefix (text ".tag=") b })
    else if has_prefix (text "=") b
    then (let p = split_pair (drop_prefix (text "=") b) in
        ok (record sen {
          list = sen.list ++ (p ∷ []);
          attributes = insert p.key p.value sen.attributes;
        }))
    else err (invalid_word b)

unfoldable pub read_loop : ℕ → Sentence → Text → Option (Result (Sentence × Text))
read_loop zero sen s = none
read_loop (suc fuel) sen s = elim (read_word s) [
  | err e ↦ some (err e)
  | ok (b, rest) ↦ elim (is_empty b) [
    | true ↦ some (ok (sen, rest))
    | false ↦ elim (add_word sen b) [ err e ↦ some (err e) | ok sen' ↦ read_loop fuel sen' rest ]
  ]
]

-- Each word takes a byte at least, so a round for each byte and one more are enough.
unfoldable pub read_sentence : Text → Option (Result (Sentence × Text))
read_sentence s = read_loop (suc (length s)) new_sentence s
