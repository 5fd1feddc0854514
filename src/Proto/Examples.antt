-- ===== src/Proto/Examples.antt =====
-- Runs of proto/ on concrete bytes.
use goros.Common.{◌%◌, ◌^◌, Text, text, List, [], ◌∷◌, ◌++◌, none, some, false, ◌≡◌, refl, arith}
use goros.Roserr.{ok}
use goros.Proto.Sentence.{new_sentence}
use goros.Proto.Length.{encode_length, read_length}
use goros.Proto.Length.RoundTrip.{read_length-encode_length}
use goros.Proto.Writer.{Link}
use goros.Proto.Writer.Laws.{Accepts, sentence_bytes}
use goros.Proto.Reader.{read_sentence}
use goros.Proto.Reader.RoundTrip.{add_words, answer, read_sentence-sentence_bytes}
use goros.Proto.Length.Bound.{Below, read_length-Below}
use goros.Proto.Cancel.{new_ctx_io, Operation, closes, cancels, begins, operate_all}
use goros.Proto.Cancel.Calls.{Ends, any_close, operate_all-Ends}

-- A connection that takes everything.
abbrev takes_all : Link
takes_all = record { on_write = λ sent b. none; on_flush = λ sent. none }

takes_all-Accepts : Accepts takes_all
takes_all-Accepts = record { writes = λ sent b. refl; flushes = λ sent. refl }

abbrev login : List Text
login = text "/login" ∷ text "=name=admin" ∷ text ".tag=r1" ∷ []

read_length-encode_length_example :
    read_length (encode_length 16384 ++ (7 ∷ [])) ≡ ok (16384 % 2 ^ 32, 7 ∷ [])
read_length-encode_length_example = read_length-encode_length 16384 (7 ∷ [])

read_sentence-sentence_bytes_example :
    read_sentence (sentence_bytes login ++ text "rest")
    ≡ some (answer (add_words new_sentence login) (text "rest"))
read_sentence-sentence_bytes_example =
    read_sentence-sentence_bytes login (text "rest")
      ((refl, omega arith), ((refl, omega arith), ((refl, omega arith), tt)))

read_length-Below_example :
    Below (2 ^ 32) 5 (0xF0 ∷ 1 ∷ 2 ∷ 3 ∷ 4 ∷ 5 ∷ []) (read_length (0xF0 ∷ 1 ∷ 2 ∷ 3 ∷ 4 ∷ 5 ∷ []))
read_length-Below_example =
    read_length-Below (0xF0 ∷ 1 ∷ 2 ∷ 3 ∷ 4 ∷ 5 ∷ [])
      (omega arith, (omega arith, (omega arith, (omega arith, (omega arith, (omega arith, tt))))))

-- A read waits, is cancelled, and two calls close.
abbrev io_calls : List Operation
io_calls = begins ∷ cancels ∷ closes ∷ begins ∷ closes ∷ []

operate_all-Ends_example : Ends (any_close false io_calls) (operate_all io_calls new_ctx_io)
operate_all-Ends_example = operate_all-Ends io_calls
