-- ===== src/Client/Processor.antt =====
-- The receivers of replies in asynchronous mode: chan_reply.go, `asyncReply` of run.go, `ListenReply`
-- of listen.go, and `closeReply` of async.go.
use goros.Common.{text, text_eq, Bool, true, false, ◌||◌, [], ◌∷◌, ◌++◌, Option, none, some}
use goros.Common.{if◌then◌else◌, is_empty}
use goros.Common.Assoc.{get_or_empty}
use goros.Roserr.{GoError, device, unknown_reply}
use goros.Proto.Sentence.{Sentence}
use goros.Client.Reply.{
  Reply, new_reply, process_sentence, re_sentence, done_sentence, trap_sentence,
}
use goros.Client.Reply.{fatal_sentence, empty_sentence}

-- A call may panic: closing a closed channel does, and so does sending on one.
pub data Attempt {ℓ} (A : Type ℓ) : Type ℓ where
  normal : A → Attempt A
  panic : Attempt A

infixl 5 ◌>>=◌
abbrev pub ◌>>=◌ {ℓ κ} : {A : Type ℓ} {B : Type κ} → Attempt A → (A → Attempt B) → Attempt B
normal a >>= f = f a
panic >>= f = panic

-- `asyncReply` collects a reply; `ListenReply` passes each row on.
pub data Kind : Type 0 where
  run listen : Kind

-- `reply.re` is for `listen` what went through the channel `reC`, and `closed` says whether `reC` is
-- closed. `stop` is `none` where the field `stop` is nil, and else says whether that channel is closed.
pub record Processor : Type 0 where
  pub kind : Kind
  pub err : Option GoError
  pub closed : Bool
  pub reply : Reply
  pub stop : Option Bool

abbrev pub new_processor : Kind → Option Bool → Processor
new_processor kind stop = record {
  kind = kind;
  err = none;
  closed = false;
  reply = new_reply;
  stop = stop;
}

-- `chanReply.close`
unfoldable pub close : Option GoError → Processor → Attempt Processor
close e a =
    if a.closed
    then panic
    else normal (record a { err = elim a.err [ none ↦ e | some old ↦ some old ]; closed = true })

-- `closeStop`
unfoldable pub close_stop : Processor → Attempt Processor
close_stop l = elim l.stop [
  | none ↦ normal l
  | some closed ↦ if closed then panic else normal (record l { stop = some true })
]

-- `closeStop` and the two results of `processSentence`
abbrev pub finish : Processor → Option GoError → Attempt (Processor × Bool × Option GoError)
finish l e = close_stop l >>= λ l'. normal (l', true, e)

abbrev pub with_done : Processor → Sentence → Processor
with_done l sen = record l { reply = record l.reply { done = some sen } }

-- `ListenReply.processSentence`; a send waits until the channel has room, and panics if it is closed.
unfoldable pub process_listen : Processor → Sentence → Attempt (Processor × Bool × Option GoError)
unfolding close_stop
process_listen l sen =
    if text_eq sen.word re_sentence
    then (if l.closed
        then panic
        else normal
            (record l { reply = record l.reply { re = l.reply.re ++ (sen ∷ []) } }, false, none))
    else if text_eq sen.word done_sentence
    then finish (with_done l sen) none
    else if text_eq sen.word trap_sentence
    then (if text_eq (get_or_empty (text "category") sen.attributes) (text "2")
        then finish (with_done l sen) none
        else finish l (some (device sen)))
    else if text_eq sen.word fatal_sentence
    then finish l (some (device sen))
    else if is_empty sen.word || text_eq sen.word empty_sentence
    then normal (l, false, none)
    else finish l (some (unknown_reply sen))

unfoldable pub process_run : Processor → Sentence → Attempt (Processor × Bool × Option GoError)
process_run a sen =
    let (r, done, e) = process_sentence a.reply sen in normal (record a { reply = r }, done, e)

-- The method of the interface `sentenceProcessor`.
unfoldable pub dispatch : Kind → Processor → Sentence → Attempt (Processor × Bool × Option GoError)
unfolding process_run process_listen
dispatch run = process_run
dispatch listen = process_listen

unfoldable pub process : Processor → Sentence → Attempt (Processor × Bool × Option GoError)
unfolding dispatch
process p sen = dispatch p.kind p sen

-- What `RunArgsContext` returns once the channel of its receiver is closed; `ctx` is the error of its
-- context where that was done first, and the call has waited on after its cancellation.
abbrev pub run_returns : Option GoError → Processor → Option Reply × Option GoError
run_returns none a = (some a.reply, a.err)
run_returns (some ctx) a = (none, some (elim a.err [ none ↦ ctx | some e ↦ e ]))
