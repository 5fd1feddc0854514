-- ===== src/Client/Async/Rows.antt =====
-- What the loop makes of the sentences of one tag: the rows of a reply, and how a receiver takes them.
use goros.Common.{
  Text, text_eq, true, false, List, [], ◌∷◌, ◌++◌, none, some, ◌≡◌, ◌≢◌, ap, ◌∙◌, ◌⊎◌, inl, inr,
  arith, if◌then◌else◌, Bool-cases, append_assoc, append-nil,
}
use goros.Proto.Sentence.{Sentence}
use goros.Client.Reply.{process_sentence, re_sentence, done_sentence, empty_sentence}
use goros.Client.Sync.Laws.{rows}
use goros.Client.Processor.{
  normal, run, listen, Processor, process, dispatch, process_run, process_listen,
}

-- The sentences of a tag, in order.
abbrev pub mine : Text → List Sentence → List Sentence
mine tag [] = []
mine tag (sen ∷ sens) = if text_eq sen.tag tag then sen ∷ mine tag sens else mine tag sens

-- A row, or a sentence that says nothing.
abbrev pub IsRow : Sentence → Type 0
IsRow sen = (sen.word ≡ re_sentence) ⊎ (sen.word ≡ []) ⊎ (sen.word ≡ empty_sentence)

abbrev pub RowFor : Text → Sentence → Type 0
RowFor tag sen = (sen.tag ≢ tag) ⊎ ((sen.tag ≡ tag) × IsRow sen)

-- The receiver with more rows.
abbrev pub collected : Processor → List Sentence → Processor
collected p rs = record p { reply = record p.reply { re = p.reply.re ++ rs } }

-- A receiver that takes rows: one of `RunArgsContext`, or a listener whose channel is open.
abbrev pub Collects : Processor → Type 0
Collects p = (p.kind ≡ run) ⊎ ((p.kind ≡ listen) × (p.closed ≡ false))

run-row :
    (p : Processor) (sen : Sentence)
    → IsRow sen
    → process_run p sen ≡ normal (collected p (rows (sen ∷ [])), false, none)
unfolding process_run process_sentence text_eq
run-row p sen (inl e) = ground (arith, append-nil p.reply.re)
run-row p sen (inr (inl e)) = ground (arith, append-nil p.reply.re)
run-row p sen (inr (inr e)) = ground (arith, append-nil p.reply.re)

listen-row :
    (p : Processor) (sen : Sentence)
    → p.closed ≡ false
    → IsRow sen
    → process_listen p sen ≡ normal (collected p (rows (sen ∷ [])), false, none)
unfolding process_listen text_eq
listen-row p sen shut (inl e) = ground (arith, append-nil p.reply.re)
listen-row p sen shut (inr (inl e)) = ground (arith, append-nil p.reply.re)
listen-row p sen shut (inr (inr e)) = ground (arith, append-nil p.reply.re)

pub process-row :
    (p : Processor) (sen : Sentence)
    → Collects p
    → IsRow sen
    → process p sen ≡ normal (collected p (rows (sen ∷ [])), false, none)
unfolding process dispatch
process-row p sen (inl k) row = ap (λ kind. dispatch kind p sen) k ∙ run-row p sen row
process-row p sen (inr (k, shut)) row =
    ap (λ kind. dispatch kind p sen) k ∙ listen-row p sen shut row

pub process-done :
    (p : Processor) (sen : Sentence)
    → p.kind ≡ run
    → sen.word ≡ done_sentence
    → process p sen ≡ normal (record p { reply = record p.reply { done = some sen } }, true, none)
unfolding process dispatch process_run process_sentence text_eq
process-done p sen k e = ground arith

pub collected_more :
    (p : Processor) (sen : Sentence) (sens : List Sentence)
    → collected (collected p (rows (sen ∷ []))) (rows sens) ≡ collected p (rows (sen ∷ sens))
collected_more p sen sens = elim (Bool-cases (text_eq sen.word re_sentence)) [
  | inl e ↦ rw e (
      ap (λ re. record p { reply = record p.reply { re = re } })
        (append_assoc p.reply.re (sen ∷ []) (rows sens)))
  | inr e ↦ rw e (
      ap (λ re. record p { reply = record p.reply { re = re ++ rows sens } })
        (append-nil p.reply.re))
]
