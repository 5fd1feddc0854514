-- ===== src/Client/Reply.antt =====
-- reply.go, error.go and the sentence words of listen.go
use goros.Common.{
  Text, text, text_eq, Bool, true, false, ◌||◌, List, [], ◌∷◌, ◌++◌, Option, none, some,
}
use goros.Common.{if◌then◌else◌, is_empty}
use goros.Common.Assoc.{get_or_empty}
use goros.Roserr.{GoError, device, unknown_reply}
use goros.Proto.Sentence.{Sentence}

abbrev pub fatal_sentence : Text
fatal_sentence = text "!fatal"

abbrev pub done_sentence : Text
done_sentence = text "!done"

abbrev pub trap_sentence : Text
trap_sentence = text "!trap"

abbrev pub re_sentence : Text
re_sentence = text "!re"

abbrev pub empty_sentence : Text
empty_sentence = text "!empty"

pub record Reply : Type 0 where
  pub re : List Sentence
  pub done : Option Sentence

abbrev pub new_reply : Reply
new_reply = record { re = []; done = none }

-- The reply after the sentence, whether it was the last one, and the error.
unfoldable pub process_sentence : Reply → Sentence → Reply × Bool × Option GoError
process_sentence r sen =
    if text_eq sen.word re_sentence
    then (record r { re = r.re ++ (sen ∷ []) }, false, none)
    else if text_eq sen.word done_sentence
    then (record r { done = some sen }, true, none)
    else if text_eq sen.word trap_sentence || text_eq sen.word fatal_sentence
    then (r, text_eq sen.word fatal_sentence, some (device sen))
    else if is_empty sen.word || text_eq sen.word empty_sentence
    then (r, false, none)
    else (r, true, some (unknown_reply sen))

-- `DeviceError.Error` over the text that `Sentence.String` formats.
fetch_message : (Sentence → Text) → Sentence → Text
fetch_message format sen =
    let m = get_or_empty (text "message") sen.attributes in
    if is_empty m then text "unknown error: " ++ format sen else m

unfoldable pub device_error_text : (Sentence → Text) → Sentence → Text
unfolding fetch_message
device_error_text format sen = text "from RouterOS device: " ++ fetch_message format sen

unfoldable pub rows_text : (Sentence → Text) → List Sentence → Text
rows_text format [] = []
rows_text format (sen ∷ sens) = format sen ++ (10 ∷ rows_text format sens)

-- `Reply.String` over the text that `Sentence.String` formats.
unfoldable pub reply_text : (Sentence → Text) → Reply → Text
reply_text format r = rows_text format r.re ++ elim r.done [ none ↦ [] | some sen ↦ format sen ]
