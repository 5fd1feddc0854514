-- ===== src/Client/Async/Traces.antt =====
-- The sentences that the loop reads, with the steps of other goroutines in between.
use goros.Common.{
  Text, text_eq_iff, text_eq-of_ne, Bool, true, List, [], ◌∷◌, Option, none, some, ◌≡◌, ◌≢◌, refl,
  sym, subst, ap, ◌∙◌, inl, inr, All, append-nil,
}
use goros.Roserr.{GoError}
use goros.Proto.Sentence.{Sentence}
use goros.Proto.Writer.{Link}
use goros.Client.Sync.Laws.{rows}
use goros.Client.Processor.{normal, run, listen, Processor, new_processor, run_returns}
use goros.Client.Async.{Client, new_client, deliver}
use goros.Client.Async.Sound.{IsSound, StaysSound, deliver-IsSound}
use goros.Client.Async.Calls.{pending}
use goros.Client.Async.Ended.{deliver_others}
use goros.Client.Async.Closing.{Among}
use goros.Client.Async.Steps.{Step, Reach, Step-IsSound, Reach-IsSound, new_client-IsSound}
use goros.Client.Async.Rows.{mine, RowFor, collected, Collects, collected_more}
use goros.Client.Async.Rounds.{own_round}
use goros.Client.Async.Listening.{Stops, IsStoppable, stopped, last_listened}
use goros.Client.Async.Answers.{Concludes, handed, last_concluded}
use goros.Client.Async.Kept.{IsOrderly}
use goros.Client.Async.Held.{deliver-Advances, same_client}
use goros.Client.Async.Progress.{IsQuiet, Step-Keeps, Reach-Advances, new_client-IsOrderly}

-- From `c` to `d` the loop reads these sentences, in order; other goroutines take any steps before,
-- between and behind them.
pub data Trace (k : Link) (d : Client) : Client → List Sentence → Type 0 where
  still : Trace k d d []
  other :
      {c b : Client} {sens : List Sentence} (st : Step k c b)
      → IsQuiet k c b st
      → Trace k d b sens
      → Trace k d c sens
  reads :
      {c b : Client} {sens : List Sentence} (sen : Sentence)
      → deliver c sen ≡ normal b
      → Trace k d b sens
      → Trace k d c (sen ∷ sens)

round-IsSound : (c b : Client) (sen : Sentence) → deliver c sen ≡ normal b → IsSound c → IsSound b
round-IsSound c b sen e s = subst StaysSound e (deliver-IsSound c sen s)

collected_none : (p : Processor) → p ≡ collected p []
collected_none p =
    ap (λ re. record p { reply = record p.reply { re = re } }) (sym (append-nil p.reply.re))

-- What a trace leaves of a receiver of whose tag it reads only rows.
abbrev Received : Client → Text → Processor → List Sentence → Type 0
Received d tag p sens =
    (pending d tag ≡ some (collected p (rows (mine tag sens)))) × IsSound d × IsOrderly d

Trace-Received :
    (k : Link) (d c : Client) (sens : List Sentence) (tag : Text) (p : Processor)
    → Trace k d c sens
    → IsSound c
    → IsOrderly c
    → pending c tag ≡ some p
    → Collects p
    → All (RowFor tag) sens
    → Received d tag p sens
Trace-Received k d c sens tag p still s o h q a = (h ∙ ap some (collected_none p), s, o)
Trace-Received k d c sens tag p (other {b = b} st quiet more) s o h q a =
    let (stay, same, o') = Step-Keeps k c b st quiet s o in
    Trace-Received k d b sens tag p more (Step-IsSound k c b st s) o' (stay tag p h) q a
Trace-Received k d c sens tag p (reads {b = b} {sens = rest} sen e more) s o h q (inl ne, a) =
    let s' = round-IsSound c b sen e s in
    let o' = (deliver-Advances c b sen o e).1 in
    let h' = deliver_others c b sen tag e (λ f. ne (sym f)) ∙ h in
    rw (text_eq-of_ne sen.tag tag ne) (Trace-Received k d b rest tag p more s' o' h' q a)
Trace-Received k d c sens tag p (reads {b = b} {sens = rest} sen e more) s o h q (inr (t, row), a) =
    let s' = round-IsSound c b sen e s in
    let o' = (deliver-Advances c b sen o e).1 in
    let p' = collected p (rows (sen ∷ [])) in
    let (c1, did, s1, own) = own_round c sen p s (ap (pending c) t ∙ h) q row in
    let h' =
      ap (pending b) (sym t) ∙ ap (λ c. pending c sen.tag) (same_client b c1 (sym e ∙ did)) ∙ own in
    let (end, s'', o'') = Trace-Received k d b rest tag p' more s' o' h' q a in
    rw ((text_eq_iff sen.tag tag).1 t)
      (end ∙ ap some (collected_more p sen (mine tag rest)), s'', o'')

-- In every history of a client, when the loop has read sentences of which those of a listener's tag
-- were rows, with any calls, listeners and cancellations of other goroutines in between, and then
-- reads the sentence that ends the listener (`!done`, a `!trap` or `!fatal`): the listener has passed on
-- exactly its rows, in order, its channels are closed and it is out of the tags. At `!done` and at an
-- interruption (a `!trap` of category 2) `Done` is the sentence and there is no error; at any other
-- `!trap` and at `!fatal` the sentence is the error, and `Done` stays nil. A receiver of any other tag
-- that got only rows meanwhile goes on, with its own rows in order.
pub Trace-listened :
    (k : Link) (c d : Client) (tag : Text) (stop : Option Bool) (sens : List Sentence)
    (final : Sentence) (done : Option Sentence) (e : Option GoError)
    → Reach k new_client c
    → pending c tag ≡ some (new_processor listen stop)
    → IsStoppable stop
    → Trace k d c sens
    → All (RowFor tag) sens
    → final.tag ≡ tag
    → Stops final done e
    → (c' : Client) × (deliver d final ≡ normal c')
      × (pending c' tag ≡ none)
      × Among (tag, stopped stop (rows (mine tag sens)) done e) c'.finished
      × ((j : Text) (p : Processor)
          → j ≢ tag
          → pending c j ≡ some p
          → Collects p
          → All (RowFor j) sens
          → pending c' j ≡ some (collected p (rows (mine j sens))))
Trace-listened k c d tag stop sens final done e r h fits trace a t v =
    let s = Reach-IsSound k new_client c new_client-IsSound r in
    let o = (Reach-Advances k new_client c new_client-IsSound new_client-IsOrderly r).1 in
    let new = new_processor listen stop in
    let rs = rows (mine tag sens) in
    let got = (Trace-Received k d c sens tag new trace s o h (inr (refl, refl)) a).0 in
    let (c', last, gone, kept) =
      last_listened d final stop rs done e (ap (pending d) t ∙ got) fits v in
    (
      c',
      last,
      ap (pending c') (sym t) ∙ gone,
      subst (λ t. Among (t, stopped stop rs done e) c'.finished) t kept,
      λ j p ne hj collects b.
          deliver_others d c' final j last (λ f. ne (f ∙ t))
          ∙ (Trace-Received k d c sens j p trace s o hj collects b).0,
    )

-- In every history of a client, when the loop has read sentences of which those of a waiting call's
-- tag were rows, with any steps of other goroutines in between, and then reads the sentence that ends
-- the reply, the call returns. With its context in time it gets the rows in order and the last
-- sentence's error, none at `!done`; a `!trap` ends the reply at once. Where the context was done first
-- it gets no reply, and the device's error if there is one, or else the context's.
pub Trace-handed :
    (k : Link) (c d : Client) (tag : Text) (sens : List Sentence) (final : Sentence)
    (done : Option Sentence) (e ctx : Option GoError)
    → Reach k new_client c
    → pending c tag ≡ some (new_processor run none)
    → Trace k d c sens
    → All (RowFor tag) sens
    → final.tag ≡ tag
    → Concludes final done e
    → (c' : Client) × (p : Processor) × (deliver d final ≡ normal c')
      × (pending c' tag ≡ none)
      × Among (tag, p) c'.finished
      × (p.closed ≡ true)
      × (run_returns ctx p ≡ handed ctx (rows (mine tag sens)) done e)
Trace-handed k c d tag sens final done e ctx r h trace a t v =
    let s = Reach-IsSound k new_client c new_client-IsSound r in
    let o = (Reach-Advances k new_client c new_client-IsSound new_client-IsOrderly r).1 in
    let new = new_processor run none in
    let got = (Trace-Received k d c sens tag new trace s o h (inl refl) a).0 in
    let (c', p, last, gone, kept, shut, same) =
      last_concluded d final (rows (mine tag sens)) done e ctx (ap (pending d) t ∙ got) v in
    (
      c',
      p,
      last,
      ap (pending c') (sym t) ∙ gone,
      subst (λ t. Among (t, p) c'.finished) t kept,
      shut,
      same,
    )
