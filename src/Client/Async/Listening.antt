-- ===== src/Client/Async/Listening.antt =====
-- The listeners of `ListenArgsQueueContext` under the loop: which rows go through the channel of a
-- listener, what its last sentence leaves, and what other listeners see of that.
use goros.Common.{
  Text, text, text_eq, text_eq_iff, text_eq_refl, Bool, true, false, List, ◌∷◌, Option, none, some,
  ◌≡◌, ◌≢◌, refl, ap, ◌∙◌, ◌⊎◌, inl, inr, arith,
}
use goros.Common.Assoc.{Assoc, get_or_empty, erase, lookup-erase}
use goros.Roserr.{GoError, device}
use goros.Proto.Sentence.{Sentence}
use goros.Client.Reply.{done_sentence, trap_sentence, fatal_sentence}
use goros.Client.Processor.{
  normal, ◌>>=◌, listen, Processor, new_processor, process, dispatch, process_listen, close,
  close_stop, finish,
}
use goros.Client.Async.{Client, deliver, settle}
use goros.Client.Async.Calls.{pending}
use goros.Client.Async.Ended.{deliver_taken}
use goros.Client.Async.Closing.{Among, pending-lookup}
use goros.Client.Async.Rows.{collected}

-- The trap by which the device says that a command was interrupted.
abbrev pub category : Sentence → Text
category sen = get_or_empty (text "category") sen.attributes

-- How the last sentence of a listener leaves its field `Done` and its error.
abbrev pub Stops : Sentence → Option Sentence → Option GoError → Type 0
Stops sen d e =
    ((sen.word ≡ done_sentence) × (d ≡ some sen) × (e ≡ none))
    ⊎ ((sen.word ≡ trap_sentence) × (category sen ≡ text "2") × (d ≡ some sen) × (e ≡ none))
    ⊎ ((sen.word ≡ trap_sentence)
        × (category sen ≢ text "2")
        × (d ≡ none)
        × (e ≡ some (device sen)))
    ⊎ ((sen.word ≡ fatal_sentence) × (d ≡ none) × (e ≡ some (device sen)))

abbrev pub IsStoppable : Option Bool → Type 0
IsStoppable stop = (stop ≡ none) ⊎ (stop ≡ some false)

abbrev pub shut : Option Bool → Option Bool
shut none = none
shut (some _) = some true

-- The listener that its last sentence leaves.
abbrev pub stopped : Option Bool → List Sentence → Option Sentence → Option GoError → Processor
stopped stop rs d e = record {
  kind = listen;
  err = e;
  closed = true;
  reply = record { re = rs; done = d };
  stop = shut stop;
}

-- A listener that has passed on these rows.
abbrev pub listening : Option Bool → List Sentence → Processor
listening stop rs = collected (new_processor listen stop) rs

abbrev ended_by : Option Bool → List Sentence → Option Sentence → Processor
ended_by stop rs d = record (listening stop rs) {
  reply = record { re = rs; done = d };
  stop = shut stop;
}

finish-shut :
    (stop : Option Bool) (rs : List Sentence) (d : Option Sentence) (e : Option GoError)
    → IsStoppable stop
    → finish (record (listening stop rs) { reply = record { re = rs; done = d } }) e
      ≡ normal (ended_by stop rs d, true, e)
unfolding close_stop
finish-shut stop rs d e (inl s) = ground arith
finish-shut stop rs d e (inr s) = ground arith

process-last :
    (stop : Option Bool) (rs : List Sentence) (sen : Sentence) (d : Option Sentence)
    (e : Option GoError)
    → IsStoppable stop
    → Stops sen d e
    → process (listening stop rs) sen ≡ normal (ended_by stop rs d, true, e)
unfolding process dispatch process_listen text_eq
process-last stop rs sen d e s (inl (w, same, err)) =
    ground (arith, finish-shut stop rs (some sen) none s)
process-last stop rs sen d e s (inr (inl (w, cat, same, err))) =
    ground (arith, finish-shut stop rs (some sen) none s)
process-last stop rs sen d e s (inr (inr (inl (w, cat, same, err)))) =
    ground
      (arith, finish-shut stop rs none (some (device sen)) s, text_eq_iff (category sen) (text "2"))
process-last stop rs sen d e s (inr (inr (inr (w, same, err)))) =
    ground (arith, finish-shut stop rs none (some (device sen)) s)

settle-over :
    (c : Client) (tags : Assoc Processor) (tag : Text) (stop : Option Bool) (rs : List Sentence)
    (d : Option Sentence) (e : Option GoError)
    → settle c tags tag (ended_by stop rs d) true e
      ≡ normal (record c {
        tags = some (erase tag tags);
        finished = (tag, stopped stop rs d e) ∷ c.finished;
      })
unfolding settle close
settle-over c tags tag stop rs d none = refl
settle-over c tags tag stop rs d (some e) = refl

-- The last sentence takes the listener from the tags, closes both its channels, and leaves every
-- other tag alone.
pub last_listened :
    (c : Client) (final : Sentence) (stop : Option Bool) (rs : List Sentence) (d : Option Sentence)
    (e : Option GoError)
    → pending c final.tag ≡ some (listening stop rs)
    → IsStoppable stop
    → Stops final d e
    → (c' : Client) × (deliver c final ≡ normal c')
      × (pending c' final.tag ≡ none)
      × Among (final.tag, stopped stop rs d e) c'.finished
unfolding settle
last_listened c final stop rs d e h s v =
    let (tags, t, f) = pending-lookup c final.tag (listening stop rs) c.tags refl h in
    let closed = stopped stop rs d e in
    (
      record c { tags = some (erase final.tag tags); finished = (final.tag, closed) ∷ c.finished },
      deliver_taken c final tags (listening stop rs) t f
          ∙ ap (λ r. r >>= λ (p', done, e). settle c tags final.tag p' done e)
              (process-last stop rs final d e s v)
          ∙ settle-over c tags final.tag stop rs d e,
      rw (lookup-erase final.tag final.tag tags, text_eq_refl final.tag) refl,
      inl refl,
    )
