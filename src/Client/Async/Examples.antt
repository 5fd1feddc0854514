-- ===== src/Client/Async/Examples.antt =====
-- Two listeners on one connection, as in examples/multi_listen; a loop that runs to its end.
pub mod Traces
use goros.Common.{
  ℕ, ◌+◌, Text, text, text_eq, text_eq_iff, [], ◌∷◌, ◌++◌, List, All, Bool, true, false, none, some,
  Option, ◌≡◌, ◌≢◌, refl, inl, inr, arith,
}
use goros.Common.Assoc.{lookup, insert, get_or_empty}
use goros.Roserr.{GoError, canceled, device}
use goros.Client.Async.Answers.{handed}
use goros.Client.Async.Traces.{Trace, still, other, reads, Trace-listened, Trace-handed}
use goros.Proto.Sentence.{Sentence}
use goros.Proto.Writer.{Writer, begin_sentence, end_sentence, write_words}
use goros.Client.Sync.Laws.{rows}
use goros.Client.Processor.{normal, run, listen, Processor, new_processor, run_returns}
use goros.Client.Async.{
  deliver, Client, new_client, start_listen, waiting, register_cancel, loop_error,
}
use goros.Client.Async.Closing.{Among}
use goros.Client.Async.Steps.{Reach, here, next, listens, cancels}
use goros.Client.Async.Rows.{mine, RowFor, collected, Collects}
use goros.Client.Async.Listening.{stopped}
use goros.Client.Async.Held.{Held}
use goros.Client.Async.Progress.{Reach-Held}
use goros.Client.Async.Loop.{async_loop_chan}
use goros.Client.Async.OnBytes.{alone, own, async_loop_chan-synchronous}
use goros.Client.Conversation.Refinement.{Said, Spells, said_bytes}
use goros.Proto.Writer.Laws.{sentence_bytes}
use goros.Client.Sync.{run_sync}
use goros.Client.Examples.{
  done_sentence, takes_all, row, asynchronous, asynchronous-Reach, one_waits, one_waits-Reach,
}

abbrev monitor_writer : ℕ → Text → Text
monitor_writer n tag = (8 ∷ text "/monitor") ++ (7 ∷ text ".tag=l") ++ tag ++ (0 ∷ [])

-- The client with one listener, and with two.
abbrev first_listens : Client
first_listens = record asynchronous {
  writer = record { sent = monitor_writer 1 (text "1"); err = none; locked = false };
  next_tag = 1;
  tags = some ((text "l1", new_processor listen (some false)) ∷ []);
}

abbrev pub both_listen : Client
both_listen = record asynchronous {
  writer = record {
    sent = monitor_writer 1 (text "1") ++ monitor_writer 2 (text "2");
    err = none;
    locked = false;
  };
  next_tag = 2;
  tags = some (
      (text "l1", new_processor listen (some false)) ∷ (text "l2", new_processor listen none) ∷ []);
}

first_starts :
    start_listen takes_all asynchronous (text "/monitor" ∷ []) (some false)
    ≡ waiting first_listens (text "l1")
unfolding start_listen begin_sentence end_sentence goros.Proto.Writer.flush
    goros.Proto.Writer.write_word goros.Proto.Writer.write write_words
    goros.Proto.Length.encode_length insert goros.Common.Decimal.decimal
first_starts = refl

second_starts :
    start_listen takes_all first_listens (text "/monitor" ∷ []) none
    ≡ waiting both_listen (text "l2")
unfolding start_listen begin_sentence end_sentence goros.Proto.Writer.flush
    goros.Proto.Writer.write_word goros.Proto.Writer.write write_words
    goros.Proto.Length.encode_length insert goros.Common.Decimal.decimal text_eq
second_starts = refl

pub both_listen-Reach : Reach takes_all new_client both_listen
both_listen-Reach =
    next
      (next asynchronous-Reach
        (listens (text "/monitor" ∷ []) (some false) (text "l1") (inr refl) first_starts))
      (listens (text "/monitor" ∷ []) none (text "l2") (inl refl) second_starts)

abbrev pub row_of : Text → Sentence
row_of tag = record row { tag = tag }

Reach-Held_example : Held (text "r1") (new_processor run none) (register_cancel one_waits).0
unfolding lookup text_eq
Reach-Held_example =
    Reach-Held takes_all one_waits (register_cancel one_waits).0 (text "r1")
      (new_processor run none) one_waits-Reach refl (next here (cancels refl))

-- Before each round another goroutine makes a tag for a cancellation.
abbrev cancelling : ℕ → Client → Client
cancelling n c = (register_cancel c).0

-- A row of the call, and the end of another reply, as the device sends them.
abbrev row_said : Said
row_said = record {
  words = text "!re" ∷ text "=name=ether1" ∷ text ".tag=r1" ∷ [];
  sentence = row_of (text "r1");
}

abbrev done_said : Text → Said
done_said tag = record {
  words = text "!done" ∷ (text ".tag=" ++ tag) ∷ [];
  sentence = record done_sentence { tag = tag };
}

abbrev both_said : List Said
both_said = row_said ∷ done_said (text "l2") ∷ []

l2_is_other_r1 : text "l2" ≢ text "r1"
l2_is_other_r1 e = ground (arith, (text_eq_iff (text "l2") (text "r1")).1 e)

both_said-Spells : All Spells both_said × Spells (done_said (text "r1"))
unfolding goros.Proto.Reader.add_word goros.Proto.Reader.split_pair insert
    goros.Common.split_at_byte text_eq goros.Proto.Reader.RoundTrip.add_words
both_said-Spells = (
  (
    (((refl, omega arith), ((refl, omega arith), ((refl, omega arith), tt))), refl),
    ((((refl, omega arith), ((refl, omega arith), tt)), refl), tt),
  ),
  (((refl, omega arith), ((refl, omega arith), tt)), refl),
)

async_loop_chan-synchronous_example :
    (last : Client) × (e : GoError) × (p : Processor) × (async_loop_chan alone one_waits
        (said_bytes both_said ++ (sentence_bytes (done_said (text "r1")).words ++ text "rest"))
      ≡ some (normal (last, loop_error last e)))
    × Among (text "r1", p) last.finished
    × (p.closed ≡ true)
    × (run_sync (
          said_bytes (own (text "r1") both_said)
          ++ (sentence_bytes (done_said (text "r1")).words ++ text "rest"))
        ≡ some (run_returns none p, some (text "rest")))
unfolding lookup text_eq
async_loop_chan-synchronous_example =
    let (spelt, final) = both_said-Spells in
    async_loop_chan-synchronous takes_all one_waits (text "r1") both_said (done_said (text "r1"))
      (text "rest") one_waits-Reach refl spelt final
      (inr (refl, inl refl), (inl l2_is_other_r1, tt)) refl refl
