-- ===== src/Tools/Streams.antt =====
-- examples/multi_listen: two listeners on one connection, each read by a goroutine of its own.
use goros.Common.{ℕ, ◌+◌, Text, text, Bool, List, [], ◌∷◌, ◌++◌, Option, none, some, if◌then◌else◌}
use goros.Common.Decimal.{decimal}
use goros.Roserr.{GoError}
use goros.Tools.{Ending, exits}
use goros.Tools.Programs.{Event, row, channel_closed, context_done}

abbrev stream_label : ℕ → Text
stream_label n = text "[stream" ++ decimal n ++ text "] "

abbrev received_line : ℕ → ℕ → Text
received_line n count = stream_label n ++ text "received sentence #" ++ decimal count ++ (10 ∷ [])

-- `format` is what `%v` prints for the error of the listener.
abbrev ended_line : ℕ → ℕ → Text → Text
ended_line n count error =
    stream_label n
    ++ text "ENDED after "
    ++ decimal count
    ++ text " sentences (err="
    ++ error
    ++ text ")"
    ++ (10 ∷ [])

-- The goroutine that reads the channel of stream `n`, with the sentences it has counted so far.
unfoldable pub read_stream : ℕ → Text → ℕ → List Event → Text
read_stream n error count [] = []
read_stream n error count (channel_closed ∷ events) = ended_line n count error
read_stream n error count (context_done ∷ events) = read_stream n error count events
read_stream n error count (row sen ∷ events) =
    received_line n (count + 1) ++ read_stream n error (count + 1) events

-- How `main` goes on after `DialContext` and after both `ListenContext`, by their errors.
unfoldable pub start_streams : Option GoError → Option GoError → Option GoError → Option Ending
start_streams (some e) first second = some (exits 1 (text "dial failed") e)
start_streams none (some e) second = some (exits 1 (text "listen1 failed") e)
start_streams none none (some e) = some (exits 1 (text "listen2 failed") e)
start_streams none none none = none

-- The last line, by whether the program was interrupted before the eight seconds were over.
abbrev pub last_line : Bool → Text
last_line interrupted =
    if interrupted
    then (10 ∷ text "=== interrupted ===") ++ (10 ∷ [])
    else (10 ∷ text "=== SUCCESS: stream2 survived 8s after stream1 was cancelled! ===")
      ++ (10 ∷ [])
