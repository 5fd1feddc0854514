-- ===== src/Client/Async/Demultiplex.antt =====
-- That the loop gives each call its own reply, as the synchronous mode reads it.
use goros.Common.{
  Text, text_eq, text_eq_iff, text_eq-of_ne, true, false, List, [], ◌∷◌, ◌++◌, none, some, ◌≡◌,
  refl, sym, subst, ap, ◌∙◌, inl, inr, arith, All,
}
use goros.Roserr.{ok}
use goros.Proto.Sentence.{Sentence}
use goros.Proto.Writer.{Link}
use goros.Proto.Reader.{read_sentence}
use goros.Client.Reply.{Reply, done_sentence, trap_sentence}
use goros.Client.Sync.{run_sync}
use goros.Client.Sync.Laws.{Streams, IsBody, rows, last_trap, run_sync_lem}
use goros.Client.Processor.{Processor, run_returns, Attempt, normal, run, new_processor}
use goros.Client.Async.{Client, new_client}
use goros.Client.Async.Sound.{IsSound}
use goros.Client.Async.Calls.{pending}
use goros.Client.Async.Closing.{Among}
use goros.Client.Async.Steps.{Reach, Reach-IsSound, new_client-IsSound}
use goros.Client.Async.Rows.{mine, IsRow, RowFor, collected}
use goros.Client.Async.Rounds.{deliver_all, deliver_all-rows, last_round, deliver_all-append}

row-IsBody : (sen : Sentence) → IsRow sen → IsBody sen
row-IsBody sen (inl e) = inl e
row-IsBody sen (inr (inl e)) = inr (inr (inl e))
row-IsBody sen (inr (inr e)) = inr (inr (inr e))

row_no_trap : (sen : Sentence) → IsRow sen → text_eq sen.word trap_sentence ≡ false
unfolding text_eq
row_no_trap sen (inl e) = ground arith
row_no_trap sen (inr (inl e)) = ground arith
row_no_trap sen (inr (inr e)) = ground arith

rows-IsBody :
    (tag : Text) (sens : List Sentence) → All (RowFor tag) sens → All IsBody (mine tag sens)
rows-IsBody tag [] a = tt
rows-IsBody tag (sen ∷ sens) (inl ne, a) =
    rw (text_eq-of_ne sen.tag tag ne) (rows-IsBody tag sens a)
rows-IsBody tag (sen ∷ sens) (inr (e, row), a) =
    rw ((text_eq_iff sen.tag tag).1 e) (row-IsBody sen row, rows-IsBody tag sens a)

rows_no_trap :
    (tag : Text) (sens : List Sentence)
    → All (RowFor tag) sens
    → last_trap none (mine tag sens) ≡ none
rows_no_trap tag [] a = refl
rows_no_trap tag (sen ∷ sens) (inl ne, a) =
    rw (text_eq-of_ne sen.tag tag ne) (rows_no_trap tag sens a)
rows_no_trap tag (sen ∷ sens) (inr (e, row), a) =
    rw ((text_eq_iff sen.tag tag).1 e)
      (rw (row_no_trap sen row, last_trap) (rows_no_trap tag sens a))

-- The reply of the tag.
abbrev pub reply_of : Text → List Sentence → Sentence → Reply
reply_of tag sens final = record { re = rows (mine tag sens); done = some final }

-- The receiver that a call is left with.
abbrev pub answered_by : Reply → Processor
answered_by r = record (new_processor run none) { closed = true; reply = r }

-- What the caller of the tag is left with: its receiver is closed, with the reply and no error.
abbrev pub Answered : Text → Reply → Attempt Client → Type 0
Answered tag r outcome =
    (c' : Client) × (outcome ≡ normal c')
    × (pending c' tag ≡ none)
    × Among (tag, answered_by r) c'.finished

deliver_all-last :
    (c : Client) (tag : Text) (sens : List Sentence) (final : Sentence)
    → IsSound c
    → pending c tag ≡ some (new_processor run none)
    → All (RowFor tag) sens
    → final.tag ≡ tag
    → final.word ≡ done_sentence
    → Answered tag (reply_of tag sens final) (deliver_all c (sens ++ (final ∷ [])))
unfolding deliver_all
deliver_all-last c tag sens final s h a e d =
    let (c', did, s', h') = deliver_all-rows sens c tag (new_processor run none) s h (inl refl) a in
    let p' = collected (new_processor run none) (rows (mine tag sens)) in
    let (last, closed, gone, kept) =
      last_round c' final p' s' (ap (pending c') e ∙ h') refl refl d in
    rw (deliver_all-append sens (final ∷ []) c, did, closed)
      (
        last,
        refl,
        ap (pending last) (sym e) ∙ gone,
        subst (λ t. Among (t, answered_by (reply_of tag sens final)) last.finished) e kept,
      )

-- In every history of a client in asynchronous mode, when the loop reads any sentences of which those
-- of a waiting call's tag are rows and then its `!done`, the call is answered, however the sentences
-- of other tags come in between: its receiver is closed, and what it returns then is what the
-- synchronous mode returns that reads the tag's own sentences alone.
pub deliver_all-synchronous :
    (k : Link) (c : Client) (tag : Text) (sens : List Sentence) (final : Sentence) (s u rest : Text)
    → Reach k new_client c
    → pending c tag ≡ some (new_processor run none)
    → All (RowFor tag) sens
    → final.tag ≡ tag
    → final.word ≡ done_sentence
    → Streams s (mine tag sens) u
    → read_sentence u ≡ some (ok (final, rest))
    → Answered tag (reply_of tag sens final) (deliver_all c (sens ++ (final ∷ [])))
      × (run_sync s ≡ some (run_returns none (answered_by (reply_of tag sens final)), some rest))
deliver_all-synchronous k c tag sens final s u rest r h a e d st p = (
  deliver_all-last c tag sens final (Reach-IsSound k new_client c new_client-IsSound r) h a e d,
  run_sync_lem s u rest (mine tag sens) final (some (reply_of tag sens final), none) st
      (rows-IsBody tag sens a) p
      (inl
        (d, ap (λ trap. (some (reply_of tag sens final), trap)) (sym (rows_no_trap tag sens a)))),
)
