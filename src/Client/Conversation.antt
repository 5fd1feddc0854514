-- ===== src/Client/Conversation.antt =====
-- `RunArgsContext` of run.go in synchronous mode, on the writer and the bytes that the stream still
-- delivers, and a client that runs one command after another.
pub mod Refinement
pub mod OnWire
mod Examples
use goros.Common.{Text, List, [], ◌∷◌, ◌++◌, Bool, true, false, Option, none, some, if◌then◌else◌}
use goros.Roserr.{GoError}
use goros.Proto.Writer.{Writer, Link, begin_sentence, write_words, end_sentence}
use goros.Client.Sync.{Outcome, run_sync}

-- What a call leaves: its result, the writer, and the bytes behind the reply where they are known.
abbrev pub Called : Type 0
Called = Outcome × Writer × Option Text

abbrev pub with_writer : Writer → Option (Outcome × Option Text) → Option Called
with_writer w none = none
with_writer w (some (o, rest)) = some (o, w, rest)

abbrev pub ended : Text → Writer × Option GoError → Option Called
ended s (w, some e) = some ((none, some e), w, some s)
ended s (w, none) = with_writer w (run_sync s)

-- `runArgsContextSync`
unfoldable pub run_args_sync : Link → Writer → Text → Option Called
run_args_sync k w s = ended s (end_sentence k w)

abbrev pub begun : Link → List Text → Text → Option Writer → Option Called
begun k words s none = none
begun k words s (some w) = run_args_sync k (write_words k words w) s

-- `RunArgsContext`; `none` is a call that waits for the writer's lock for good.
unfoldable pub run_args : Link → Writer → List Text → Text → Option Called
run_args k w words s = begun k words s (begin_sentence w)

-- A conversation: the results in order, the writer, and the bytes left.
abbrev pub Conversed : Type 0
Conversed = List Outcome × Writer × Option Text

abbrev pub put_first : Outcome → Option Conversed → Option Conversed
put_first o none = none
put_first o (some (os, w, left)) = some (o ∷ os, w, left)

-- Where the stream stands after a failed read is not known, so that the conversation stops there.
unfoldable pub converse : Link → Writer → Text → List (List Text) → Option Conversed
converse k w s [] = some ([], w, some s)
converse k w s (words ∷ commands) = elim (run_args k w words s) [
  | none ↦ none
  | some (o, w', none) ↦ some (o ∷ [], w', none)
  | some (o, w', some rest) ↦ put_first o (converse k w' rest commands)
]
