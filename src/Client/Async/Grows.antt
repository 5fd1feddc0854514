-- ===== src/Client/Async/Grows.antt =====
-- What a sentence makes of a receiver: the same receiver, with a row more at most.
use goros.Common.{
  text_eq, Bool, List, [], ◌∷◌, ◌++◌, Option, ◌≡◌, refl, sym, ap, subst, ◌∙◌, arith, if◌then◌else◌,
  append-nil, append_assoc,
}
use goros.Roserr.{GoError}
use goros.Proto.Sentence.{Sentence}
use goros.Client.Reply.{Reply, process_sentence, re_sentence}
use goros.Client.Processor.{
  Attempt, normal, panic, Kind, run, listen, Processor, process, dispatch, process_run,
  process_listen,
}

-- The same kind of receiver, which has got what the other had, and maybe more.
abbrev pub Grows : Processor → Processor → Type 0
Grows p p' = (p'.kind ≡ p.kind) × ((more : List Sentence) × (p'.reply.re ≡ p.reply.re ++ more))

pub Grows-refl : (p : Processor) → Grows p p
Grows-refl p = (refl, ([], sym (append-nil p.reply.re)))

pub Grows-trans : (p q r : Processor) → Grows p q → Grows q r → Grows p r
Grows-trans p q r (k, (more, e)) (k', (more', e')) = (
  k' ∙ k,
  (
    more ++ more',
    e' ∙ ap (λ (l : List Sentence). l ++ more') e ∙ append_assoc p.reply.re more more',
  ),
)

-- The row that a sentence adds.
abbrev added : Sentence → List Sentence
added sen = if text_eq sen.word re_sentence then sen ∷ [] else []

process_sentence-re :
    (r : Reply) (sen : Sentence) → (process_sentence r sen).0.re ≡ r.re ++ added sen
unfolding process_sentence
process_sentence-re r sen = ground (arith, append-nil r.re)

listen-Grows :
    (p p' : Processor) (sen : Sentence) (done : Bool) (e : Option GoError)
    → process_listen p sen ≡ normal (p', done, e)
    → (p'.kind ≡ p.kind) × (p'.reply.re ≡ p.reply.re ++ added sen)
unfolding process_listen goros.Client.Processor.close_stop
listen-Grows p p' sen done e h = ground (arith, append-nil p.reply.re)

dispatch-Grows :
    (k : Kind) (p p' : Processor) (sen : Sentence) (done : Bool) (e : Option GoError)
    → dispatch k p sen ≡ normal (p', done, e)
    → Grows p p'
unfolding dispatch process_run
dispatch-Grows run p p' sen done e h =
    let same : record p { reply = (process_sentence p.reply sen).0 } ≡ p' = cc (h) in
    subst (Grows p) same (refl, (added sen, process_sentence-re p.reply sen))
dispatch-Grows listen p p' sen done e h =
    let (k, rows) = listen-Grows p p' sen done e h in (k, (added sen, rows))

pub process-Grows :
    (p p' : Processor) (sen : Sentence) (done : Bool) (e : Option GoError)
    → process p sen ≡ normal (p', done, e)
    → Grows p p'
unfolding process
process-Grows p p' sen done e h = dispatch-Grows p.kind p p' sen done e h
