-- ===== src/Client/Examples.antt =====
-- Replies to a command in both modes, and a client whose loop has ended.
use goros.Common.{
  Text, text, text_eq, text_eq_iff, [], ◌∷◌, ◌++◌, List, All, Bool, true, false, none, some, Option,
  ◌≡◌, ◌≢◌, refl, inl, inr, arith, if◌then◌else◌,
}
use goros.Common.Assoc.{lookup, insert}
use goros.Roserr.{eof, async_loop_ended}
use goros.Roserr.{ok}
use goros.Proto.Sentence.{Sentence, new_sentence}
use goros.Proto.Reader.RoundTrip.{add_words}
use goros.Proto.Writer.{Writer, Link, new_writer, begin_sentence, end_sentence, write_words}
use goros.Proto.Reader.{read_sentence, read_loop, add_word, read_word}
use goros.Client.Reply.{Reply}
use goros.Client.Sync.{run_sync}
use goros.Client.Sync.Laws.{run_sync_lem}
use goros.Client.Processor.{normal, panic, run, new_processor}
use goros.Client.Async.{
  Client, new_client, async_context, deliver, close_tags, start_run, blocked, failed, waiting,
}
use goros.Client.Async.Calls.{pending}
use goros.Client.Async.Steps.{
  Reach, begins, runs, here, next, Reach-ne-panic, new_client-IsSound, Reach-IsSound,
}
use goros.Client.Async.Ended.{start_run-fresh, start_run_ended}
use goros.Client.Async.Closing.{Among, closed_with, given, close_tags-Reaches}

-- A connection that takes everything.
abbrev pub takes_all : Link
takes_all = record { on_write = λ sent b. none; on_flush = λ sent. none }

abbrev pub row : Sentence
row = record {
  word = text "!re";
  tag = [];
  list = record { key = text "name"; value = text "ether1" } ∷ [];
  attributes = (text "name", text "ether1") ∷ [];
}

abbrev pub done_sentence : Sentence
done_sentence = record { word = text "!done"; tag = []; list = []; attributes = [] }

abbrev row_reply : Reply
row_reply = record { re = row ∷ []; done = some done_sentence }

abbrev done_stream : Text
done_stream = (5 ∷ text "!done") ++ (0 ∷ [])

abbrev reply_stream : Text
reply_stream = (3 ∷ text "!re") ++ (12 ∷ text "=name=ether1") ++ (0 ∷ []) ++ done_stream

run_sync_lem_example : run_sync reply_stream ≡ some ((some row_reply, none), some [])
unfolding read_sentence read_loop read_word goros.Proto.Length.read_length
    goros.Proto.Length.read_number goros.Proto.Length.read_full goros.Proto.Length.join_bytes
    add_word goros.Proto.Reader.split_pair insert goros.Common.split_at_byte text_eq
run_sync_lem_example =
    run_sync_lem reply_stream done_stream [] (row ∷ []) done_sentence (some row_reply, none)
      (done_stream, refl, refl) (inl refl, tt) refl (inl (refl, refl))

abbrev pub asynchronous : Client
asynchronous = record new_client { async = true; tags = some [] }

abbrev sent_writer : Writer
sent_writer = record {
  sent = (6 ∷ text "/login") ++ (7 ∷ text ".tag=r1") ++ (0 ∷ []);
  err = none;
  locked = false;
}

abbrev pub one_waits : Client
one_waits = record asynchronous {
  writer = sent_writer;
  next_tag = 1;
  tags = some ((text "r1", new_processor run none) ∷ []);
}

pub asynchronous-Reach : Reach takes_all new_client asynchronous
unfolding async_context
asynchronous-Reach = next here (begins refl)

sends : start_run takes_all asynchronous (text "/login" ∷ []) ≡ waiting one_waits (text "r1")
unfolding start_run begin_sentence end_sentence goros.Proto.Writer.flush
    goros.Proto.Writer.write_word goros.Proto.Writer.write write_words
    goros.Proto.Length.encode_length insert goros.Common.Decimal.decimal
sends = refl

pub one_waits-Reach : Reach takes_all new_client one_waits
one_waits-Reach = next asynchronous-Reach (runs (text "/login" ∷ []) (text "r1") sends)

abbrev pub tagged_row : Sentence
tagged_row = record row { tag = text "r1" }

Reach-ne-panic_example : (deliver one_waits tagged_row ≢ panic) × (close_tags eof one_waits ≢ panic)
Reach-ne-panic_example = Reach-ne-panic takes_all one_waits tagged_row eof one_waits-Reach

start_run-fresh_example :
    (pending asynchronous (text "r1") ≡ none)
    × ((j : Text)
        → pending one_waits j ≡ (
            if text_eq (text "r1") j
            then some (new_processor run none)
            else pending asynchronous j))
start_run-fresh_example =
    start_run-fresh takes_all asynchronous one_waits (text "/login" ∷ []) (text "r1")
      (Reach-IsSound takes_all new_client asynchronous new_client-IsSound asynchronous-Reach) sends

abbrev ended : Client
ended = record new_client { async = true }

start_run_ended_example :
    (c' : Client) × (start_run takes_all ended (text "/login" ∷ []) ≡ failed c' async_loop_ended)
    × ((later : List Text) → start_run takes_all c' later ≡ blocked)
start_run_ended_example = start_run_ended takes_all ended (text "/login" ∷ []) refl refl refl

abbrev re_words : List Text
re_words = text "!re" ∷ text "=name=a=b" ∷ text "=dynamic" ∷ text ".tag=r1" ∷ []

abbrev re_sentence_read : Sentence
re_sentence_read = record {
  word = text "!re";
  tag = text "r1";
  list =
      record { key = text "name"; value = text "a=b" }
      ∷ record { key = text "dynamic"; value = [] }
      ∷ [];
  attributes = (text "name", text "a=b") ∷ (text "dynamic", []) ∷ [];
}

reads_words : add_words new_sentence re_words ≡ ok re_sentence_read
unfolding add_words add_word goros.Proto.Reader.split_pair insert goros.Common.split_at_byte text_eq
reads_words = refl

close_tags-Reaches_example :
    (c' : Client) × (close_tags eof one_waits ≡ normal c')
    × (c'.tags ≡ none)
    × Among (text "r1", closed_with (given one_waits eof) (new_processor run none)) c'.finished
unfolding lookup text_eq
close_tags-Reaches_example =
    close_tags-Reaches takes_all one_waits eof (text "r1") (new_processor run none) one_waits-Reach
      refl

abbrev tag_word : Text
tag_word = 7 ∷ text ".tag=r1"

abbrev pub tagged_done_stream : Text
tagged_done_stream = (5 ∷ text "!done") ++ tag_word ++ (0 ∷ [])

abbrev pub tagged_stream : Text
tagged_stream =
    (3 ∷ text "!re") ++ (12 ∷ text "=name=ether1") ++ tag_word ++ (0 ∷ []) ++ tagged_done_stream
