-- ===== src/Client/Async/Rounds.antt =====
-- The loop as a whole: the rounds of `asyncLoop` on the sentences that it reads, of whatever tags.
use goros.Common.{
  Text, text_eq_iff, text_eq_refl, text_eq-of_ne, false, List, [], ◌∷◌, ◌++◌, none, some, ◌≡◌, ◌≢◌,
  refl, sym, subst, ap, ◌∙◌, inl, inr, All, append-nil,
}
use goros.Common.Assoc.{Assoc, lookup, insert, erase, lookup-insert, lookup-erase}
use goros.Proto.Sentence.{Sentence}
use goros.Client.Reply.{done_sentence}
use goros.Client.Sync.Laws.{rows}
use goros.Client.Processor.{Attempt, normal, panic, ◌>>=◌, run, Processor}
use goros.Client.Async.{Client, deliver, settle}
use goros.Client.Async.Sound.{IsSound, StaysSound, deliver-IsSound}
use goros.Client.Async.Calls.{pending}
use goros.Client.Async.Ended.{deliver_taken, deliver_others}
use goros.Client.Async.Closing.{Among, closed_with, close-closed_with, pending-lookup}
use goros.Client.Async.Rows.{
  mine, IsRow, RowFor, collected, Collects, process-row, process-done, collected_more,
}

-- The rounds of `asyncLoop`.
unfoldable pub deliver_all : Client → List Sentence → Attempt Client
deliver_all c [] = normal c
deliver_all c (sen ∷ sens) = deliver c sen >>= λ c'. deliver_all c' sens

-- A round that keeps the invariant gives a client.
pub round-StaysSound :
    (r : Attempt Client) → StaysSound r → (c' : Client) × (r ≡ normal c') × IsSound c'
round-StaysSound (normal c) s = (c, refl, s)
round-StaysSound panic s = absurd s

lookup_own :
    (tag : Text) (p : Processor) (tags : Assoc Processor) → lookup tag (insert tag p tags) ≡ some p
lookup_own tag p tags = rw (lookup-insert tag tag p tags, text_eq_refl tag) refl

-- What a round on the tag's own row leaves.
abbrev with_receiver : Client → Assoc Processor → Text → Processor → Client
with_receiver c tags tag p = record c { tags = some (insert tag p tags) }

deliver-own :
    (c : Client) (sen : Sentence) (tags : Assoc Processor) (p : Processor)
    → c.tags ≡ some tags
    → lookup sen.tag tags ≡ some p
    → Collects p
    → IsRow sen
    → deliver c sen ≡ normal (with_receiver c tags sen.tag (collected p (rows (sen ∷ []))))
unfolding settle
deliver-own c sen tags p t f k row =
    rw (deliver_taken c sen tags p t f, process-row p sen k row) refl

-- The client after a round: sound, with this receiver under the tag.
abbrev pub Holds : Text → Processor → Attempt Client → Type 0
Holds tag p r = (c' : Client) × (r ≡ normal c') × IsSound c' × (pending c' tag ≡ some p)

pub own_round :
    (c : Client) (sen : Sentence) (p : Processor)
    → IsSound c
    → pending c sen.tag ≡ some p
    → Collects p
    → IsRow sen
    → Holds sen.tag (collected p (rows (sen ∷ []))) (deliver c sen)
own_round c sen p s h k row =
    let (tags, t, f) = pending-lookup c sen.tag p c.tags refl h in
    let p' = collected p (rows (sen ∷ [])) in
    let did = deliver-own c sen tags p t f k row in
    (
      with_receiver c tags sen.tag p',
      did,
      subst StaysSound did (deliver-IsSound c sen s),
      lookup_own sen.tag p' tags,
    )

other_round :
    (c : Client) (sen : Sentence) (tag : Text) (p : Processor)
    → IsSound c
    → pending c tag ≡ some p
    → sen.tag ≢ tag
    → Holds tag p (deliver c sen)
other_round c sen tag p s h ne =
    let (c', did, s') = round-StaysSound (deliver c sen) (deliver-IsSound c sen s) in
    (c', did, s', deliver_others c c' sen tag did (λ e. ne (sym e)) ∙ h)

-- After sentences of which those of the tag are rows, the receiver of the tag has these rows, in order.
pub deliver_all-rows :
    (sens : List Sentence) (c : Client) (tag : Text) (p : Processor)
    → IsSound c
    → pending c tag ≡ some p
    → Collects p
    → All (RowFor tag) sens
    → Holds tag (collected p (rows (mine tag sens))) (deliver_all c sens)
unfolding deliver_all
deliver_all-rows [] c tag p s h k a = (
  c,
  refl,
  s,
  h
      ∙ ap some (
          ap (λ re. record p { reply = record p.reply { re = re } }) (sym (append-nil p.reply.re))),
)
deliver_all-rows (sen ∷ sens) c tag p s h k (inl ne, a) =
    let (c', did, s', h') = other_round c sen tag p s h ne in
    rw (text_eq-of_ne sen.tag tag ne, did) (deliver_all-rows sens c' tag p s' h' k a)
deliver_all-rows (sen ∷ sens) c tag p s h k (inr (e, row), a) =
    let (c', did, s', own) = own_round c sen p s (ap (pending c) e ∙ h) k row in
    let p' = collected p (rows (sen ∷ [])) in
    let h' = ap (pending c') (sym e) ∙ own in
    let (last, all, s'', h'') = deliver_all-rows sens c' tag p' s' h' k a in
    rw ((text_eq_iff sen.tag tag).1 e, did)
      (last, all, s'', h'' ∙ ap some (collected_more p sen (mine tag sens)))

-- The receiver's last sentence closes it, and takes it from the tags.
abbrev pub Finishes : Text → Processor → Attempt Client → Type 0
Finishes tag p r =
    (c' : Client) × (r ≡ normal c')
    × (pending c' tag ≡ none)
    × Among (tag, closed_with none p) c'.finished

pub last_round :
    (c : Client) (final : Sentence) (p : Processor)
    → IsSound c
    → pending c final.tag ≡ some p
    → p.kind ≡ run
    → p.closed ≡ false
    → final.word ≡ done_sentence
    → Finishes final.tag
        (record p { reply = record p.reply { done = some final } })
        (deliver c final)
unfolding settle
last_round c final p s h k shut d =
    let (tags, t, f) = pending-lookup c final.tag p c.tags refl h in
    let p' = record p { reply = record p.reply { done = some final } } in
    (
      record c {
        tags = some (erase final.tag tags);
        finished = (final.tag, closed_with none p') ∷ c.finished;
      },
      rw
          (
            deliver_taken c final tags p t f,
            process-done p final k d,
            close-closed_with none p' shut,
          )
          refl,
      rw (lookup-erase final.tag final.tag tags, text_eq_refl final.tag) refl,
      inl refl,
    )

append_round :
    (r : Attempt Client) (f g : Client → Attempt Client) (h : Client → Attempt Client)
    → ((c : Client) → f c ≡ (g c >>= h))
    → (r >>= f) ≡ ((r >>= g) >>= h)
append_round (normal c) f g h e = e c
append_round panic f g h e = refl

pub deliver_all-append :
    (sens more : List Sentence) (c : Client)
    → deliver_all c (sens ++ more) ≡ (deliver_all c sens >>= λ c'. deliver_all c' more)
unfolding deliver_all
deliver_all-append [] more c = refl
deliver_all-append (sen ∷ sens) more c =
    append_round (deliver c sen) (λ c'. deliver_all c' (sens ++ more)) (λ c'. deliver_all c' sens)
      (λ c'. deliver_all c' more) (deliver_all-append sens more)
