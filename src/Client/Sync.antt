-- ===== src/Client/Sync.antt =====
-- `runArgsContextSync` of run.go: the sentences of one reply read one after another. The loop takes
-- fuel, and `none` means that it ran out.
pub mod Laws
use goros.Common.{
  ℕ, zero, suc, Text, Bool, true, false, Option, none, some, length, [], if◌then◌else◌,
}
use goros.Roserr.{Result, ok, err, GoError}
use goros.Proto.Sentence.{Sentence}
use goros.Proto.Reader.{read_sentence}
use goros.Client.Reply.{Reply, new_reply, process_sentence}

-- The results `(*Reply, error)`, each possibly nil, and the rest of the stream; where that stands
-- after a failed read is not known.
abbrev pub Outcome : Type 0
Outcome = Option Reply × Option GoError

unfoldable pub run_loop : ℕ → Reply → Option GoError → Text → Option (Outcome × Option Text)
run_loop zero out last s = none
run_loop (suc fuel) out last s = elim (read_sentence s) [
  | none ↦ none
  | some (err e) ↦ some ((none, some e), none)
  | some (ok (sen, rest)) ↦
      let (out', done, failure) = process_sentence out sen in
      elim failure [
        | some e ↦ elim done [
          | true ↦ some ((none, some e), some rest)
          | false ↦ run_loop fuel out' (some e) rest
        ]
        | none ↦ elim done [
          | true ↦ some ((some out', last), some rest)
          | false ↦ run_loop fuel out' last rest
        ]
      ]
]

-- Each sentence takes a byte at least.
unfoldable pub run_sync : Text → Option (Outcome × Option Text)
run_sync s = run_loop (suc (length s)) new_reply none s
