-- ===== src/Client/Async/Examples/Traces.antt =====
-- A listener that is cancelled behind its first row, and a call that is, as in examples/listen.
use goros.Common.{
  ℕ, ◌+◌, Text, text, text_eq, text_eq_iff, [], ◌∷◌, ◌++◌, List, All, Bool, true, false, none, some,
  Option, ◌≡◌, ◌≢◌, refl, inl, inr, arith,
}
use goros.Common.Assoc.{lookup, insert, get_or_empty}
use goros.Roserr.{canceled, device}
use goros.Client.Async.Answers.{handed}
use goros.Client.Async.Traces.{Trace, still, other, reads, Trace-listened, Trace-handed}
use goros.Proto.Sentence.{Sentence}
use goros.Client.Sync.Laws.{rows}
use goros.Client.Processor.{normal, run, listen, Processor, new_processor, run_returns}
use goros.Client.Async.{
  deliver, Client, new_client, start_listen, waiting, register_cancel, loop_error,
}
use goros.Client.Async.Calls.{pending}
use goros.Client.Async.Closing.{Among}
use goros.Client.Async.Steps.{cancels}
use goros.Client.Async.Rows.{mine, RowFor, collected, Collects}
use goros.Client.Async.Listening.{stopped}
use goros.Client.Examples.{takes_all, one_waits, one_waits-Reach}
use goros.Client.Async.Examples.{both_listen, both_listen-Reach, row_of}

abbrev interrupted : Sentence
interrupted = record {
  word = text "!trap";
  tag = text "l1";
  list = [];
  attributes = (text "category", text "2") ∷ [];
}

-- The call is cancelled, and the device interrupts it.
abbrev run_interrupted : Sentence
run_interrupted = record interrupted { tag = text "r1" }

-- A tag for a cancellation is made, and then the first listener gets a row.
abbrev after_row : Client
after_row = record both_listen {
  next_tag = 3;
  tags = some (
      (text "l1", collected (new_processor listen (some false)) (row_of (text "l1") ∷ []))
      ∷ (text "l2", new_processor listen none)
      ∷ (text "c3", new_processor run none)
      ∷ []);
}

after_row-Trace : Trace takes_all after_row both_listen (row_of (text "l1") ∷ [])
unfolding register_cancel deliver goros.Client.Async.settle insert lookup text_eq
    goros.Common.Decimal.decimal goros.Client.Processor.process goros.Client.Processor.dispatch
    goros.Client.Processor.process_listen
after_row-Trace =
    other {b = (register_cancel both_listen).0} (cancels refl) tt
      (reads (row_of (text "l1")) refl still)

Trace-listened_example :
    (c' : Client) × (deliver after_row interrupted ≡ normal c')
    × (pending c' (text "l1") ≡ none)
    × Among
        (
          text "l1",
          stopped
              (some false)
              (rows (mine (text "l1") (row_of (text "l1") ∷ [])))
              (some interrupted)
              none,
        )
        c'.finished
    × ((j : Text) (p : Processor)
        → j ≢ text "l1"
        → pending both_listen j ≡ some p
        → Collects p
        → All (RowFor j) (row_of (text "l1") ∷ [])
        → pending c' j ≡ some (collected p (rows (mine j (row_of (text "l1") ∷ [])))))
unfolding lookup text_eq get_or_empty
Trace-listened_example =
    Trace-listened takes_all both_listen after_row (text "l1") (some false)
      (row_of (text "l1") ∷ []) interrupted (some interrupted) none both_listen-Reach refl
      (inr refl) after_row-Trace (inr (refl, inl refl), tt) refl
      (inr (inl (refl, refl, refl, refl)))

-- The call is cancelled after its first row.
abbrev cancelled_run : Client
cancelled_run = record one_waits {
  next_tag = 2;
  tags = some (
      (text "r1", collected (new_processor run none) (row_of (text "r1") ∷ []))
      ∷ (text "c2", new_processor run none)
      ∷ []);
}

cancelled_run-Trace : Trace takes_all cancelled_run one_waits (row_of (text "r1") ∷ [])
unfolding register_cancel deliver goros.Client.Async.settle insert lookup text_eq
    goros.Common.Decimal.decimal goros.Client.Processor.process goros.Client.Processor.dispatch
    goros.Client.Processor.process_run goros.Client.Reply.process_sentence
cancelled_run-Trace =
    other {b = (register_cancel one_waits).0} (cancels refl) tt
      (reads (row_of (text "r1")) refl still)

Trace-handed_example :
    (c' : Client) × (p : Processor) × (deliver cancelled_run run_interrupted ≡ normal c')
    × (pending c' (text "r1") ≡ none)
    × Among (text "r1", p) c'.finished
    × (p.closed ≡ true)
    × (run_returns (some canceled) p
        ≡ handed
            (some canceled)
            (rows (mine (text "r1") (row_of (text "r1") ∷ [])))
            none
            (some (device run_interrupted)))
unfolding lookup text_eq
Trace-handed_example =
    Trace-handed takes_all one_waits cancelled_run (text "r1") (row_of (text "r1") ∷ [])
      run_interrupted none (some (device run_interrupted)) (some canceled) one_waits-Reach refl
      cancelled_run-Trace (inr (refl, inl refl), tt) refl (inr (inl (refl, refl, refl)))
