-- ===== src/Client/Async.antt =====
-- The asynchronous mode: `AsyncContext`, one round of `asyncLoop` and `closeTags` of async.go,
-- `RunArgsContext` of run.go, `ListenArgsQueueContext` of listen.go, `cancelTag` of cancel.go, and
-- `Close` of client.go. Each runs under the client's mutex where it touches `tags`, so a step of the
-- client is one of these functions; steps of different goroutines come in any order.
pub mod Sound
pub mod Calls
pub mod Steps
pub mod Ended
pub mod Closing
pub mod Rows
pub mod Rounds
pub mod Demultiplex
pub mod Listening
pub mod Answers
pub mod Kept
pub mod Grows
pub mod Held
pub mod Progress
pub mod Loop
pub mod Traces
pub mod OnBytes
pub mod Examples
use goros.Common.{ℕ, ◌+◌, Text, text, Bool, true, false, List, [], ◌∷◌, ◌++◌, Option, none, some}
use goros.Common.{if◌then◌else◌}
use goros.Common.Assoc.{Assoc, lookup, insert, erase}
use goros.Common.Decimal.{decimal}
use goros.Roserr.{GoError, already_async, async_loop_ended}
use goros.Proto.Sentence.{Sentence}
use goros.Proto.Writer.{
  Writer, Link, new_writer, begin_sentence, write_word, write_words, end_sentence,
}
use goros.Client.Processor.{Attempt, normal, ◌>>=◌, run, listen, Processor, new_processor}
use goros.Client.Processor.{process, close}

-- `tags` is `none` where the Go map is nil. A receiver that leaves `tags` is kept in `finished`, where
-- the caller that waits for it still sees it.
pub record Client : Type 0 where
  pub writer : Writer
  pub closing : Bool
  pub async : Bool
  pub next_tag : ℕ
  pub tags : Option (Assoc Processor)
  pub finished : Assoc Processor

abbrev pub new_client : Client
new_client = record {
  writer = new_writer;
  closing = false;
  async = false;
  next_tag = 0;
  tags = none;
  finished = [];
}

-- The tags of `RunArgsContext`, `ListenArgsQueueContext` and `cancelTag`.
abbrev pub run_tag : ℕ → Text
run_tag n = b'r' ∷ decimal n

abbrev pub listen_tag : ℕ → Text
listen_tag n = b'l' ∷ decimal n

abbrev pub cancel_tag_name : ℕ → Text
cancel_tag_name n = b'c' ∷ decimal n

unfoldable pub async_context : Client → Client × Option GoError
async_context c =
    if c.async then (c, some already_async) else (record c { async = true; tags = some [] }, none)

-- What `Close` means to the receivers: the flag that the end of the loop asks. The channels of the reader
-- and the writer, and the connection, are closed in `Client.Life`.
unfoldable pub close_client : Client → Client
close_client c = record c { closing = true }

-- What a call has come to: it waits for the writer's lock for good, it returned an error, it goes on
-- in synchronous mode, or its request is sent and it waits for the reply to its tag.
pub data Started : Type 0 where
  blocked : Started
  failed : Client → GoError → Started
  synchronous : Client → Started
  waiting : Client → Text → Started

-- The words of a request, with its tag word last.
abbrev pub tagged : Link → List Text → Text → Writer → Writer
tagged k words tag w = write_word k (text ".tag=" ++ tag) (write_words k words w)

-- `RunArgsContext` up to the wait for the reply.
unfoldable pub register_run : Link → Client → Text → Assoc Processor → Started
register_run k c tag tags =
    let added = insert tag (new_processor run none) tags in
    let (w, e) = end_sentence k c.writer in
    elim e [
      | some x ↦ failed (record c { writer = w; tags = some (erase tag added) }) x
      | none ↦ waiting (record c { writer = w; tags = some added }) tag
    ]

unfoldable pub run_locked : Link → Client → List Text → Writer → Started
unfolding register_run
run_locked k c sentences w =
    if c.async
    then (let tag = run_tag (c.next_tag + 1) in
        let c' = record c { writer = tagged k sentences tag w; next_tag = c.next_tag + 1 } in
        elim c.tags [ none ↦ failed c' async_loop_ended | some tags ↦ register_run k c' tag tags ])
    else synchronous (record c { writer = write_words k sentences w })

unfoldable pub start_run : Link → Client → List Text → Started
unfolding run_locked
start_run k c sentences = elim (begin_sentence c.writer) [
  | none ↦ blocked
  | some w ↦ run_locked k c sentences w
]

-- `ListenArgsQueueContext`; `stop` is `some false` where the context is not the background context.
unfoldable pub register_listen : Link → Client → Text → Option Bool → Started
register_listen k c tag stop =
    let (w, e) = end_sentence k c.writer in
    let c' = record c { writer = w } in
    elim e [
      | some x ↦ failed c' x
      | none ↦ elim c.tags [
        | none ↦ failed c' async_loop_ended
        | some tags ↦
            waiting (record c' { tags = some (insert tag (new_processor listen stop) tags) }) tag
      ]
    ]

unfoldable pub listen_started : Link → Client → List Text → Option Bool → Started
unfolding register_listen
listen_started k c sentence stop =
    let tag = listen_tag (c.next_tag + 1) in
    elim (begin_sentence c.writer) [
      | none ↦ blocked
      | some w ↦
          register_listen k
            (record c { writer = tagged k sentence tag w; next_tag = c.next_tag + 1 }) tag stop
    ]

unfoldable pub start_listen : Link → Client → List Text → Option Bool → Started
unfolding listen_started async_context
start_listen k c sentence stop =
    let c' = if c.async then c else (async_context c).0 in listen_started k c' sentence stop

-- `cancelTag` up to the unlock of the mutex: the tag under which the reply to the cancellation is
-- expected, unless the loop has ended.
unfoldable pub register_cancel : Client → Client × Option Text
register_cancel c =
    let tag = cancel_tag_name (c.next_tag + 1) in
    let c' = record c { next_tag = c.next_tag + 1 } in
    elim c.tags [
      | none ↦ (c', none)
      | some tags ↦ (record c' { tags = some (insert tag (new_processor run none) tags) }, some tag)
    ]

-- The rest of `cancelTag`; `none` while another sentence holds the writer's lock.
unfoldable pub send_cancel : Link → Text → Text → Client → Option Client
send_cancel k target tag c = elim (begin_sentence c.writer) [
  | none ↦ none
  | some w ↦
      let words = text "/cancel" ∷ (text "=tag=" ++ target) ∷ [] in
      some (record c { writer = (end_sentence k (tagged k words tag w)).0 })
]

-- Whether a receiver is done with, by the two results of `processSentence`.
abbrev pub is_over : Bool → Option GoError → Bool
is_over done none = done
is_over done (some e) = true

-- What the loop does with the results of `processSentence`.
unfoldable pub settle :
    Client → Assoc Processor → Text → Processor → Bool → Option GoError → Attempt Client
settle c tags tag p done e =
    if is_over done e
    then (close e p >>= λ p'.
        normal (record c { tags = some (erase tag tags); finished = (tag, p') ∷ c.finished }))
    else normal (record c { tags = some (insert tag p tags) })

-- One round of `asyncLoop` with the sentence it read.
unfoldable pub deliver : Client → Sentence → Attempt Client
unfolding settle
deliver c sen = elim c.tags [
  | none ↦ normal c
  | some tags ↦ elim (lookup sen.tag tags) [
    | none ↦ normal c
    | some p ↦ process p sen >>= λ (p', done, e). settle c tags sen.tag p' done e
  ]
]

unfoldable pub close_all :
    Option GoError → Assoc Processor → Assoc Processor → Attempt (Assoc Processor)
close_all e [] finished = normal finished
close_all e ((tag, p) ∷ tags) finished = close e p >>= λ p'. close_all e tags ((tag, p') ∷ finished)

-- `closeTags`; ranging over a nil map does nothing.
unfoldable pub close_tags : GoError → Client → Attempt Client
unfolding close_all
close_tags e c =
    let given = if c.closing then none else some e in
    elim c.tags [
      | none ↦ normal c
      | some tags ↦
          (close_all given tags c.finished >>= λ finished.
          normal (record c { tags = none; finished = finished }))
    ]

-- What `asyncLoopChan` sends to the channel that `Async` returned.
unfoldable pub loop_error : Client → GoError → Option GoError
loop_error c e = if c.closing then none else some e
