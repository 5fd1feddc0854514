-- ===== src/Client/Async/OnBytes.antt =====
-- The loop on the bytes that a device sends: each call's reply among those of others.
use goros.Common.{
  ℕ, zero, suc, ◌<◌, Text, text_eq, true, List, [], ◌∷◌, ◌++◌, none, some, ◌≡◌, refl, sym, subst,
  ap, ◌∙◌, inl, inr, arith, All, length, if◌then◌else◌, Bool-cases, append_assoc, append-nil,
}
use goros.Roserr.{GoError}
use goros.Proto.Sentence.{Sentence}
use goros.Proto.Writer.{Link}
use goros.Proto.Writer.Laws.{sentence_bytes}
use goros.Proto.Reader.{read_sentence}
use goros.Proto.Reader.Laws.{read_sentence-shortens}
use goros.Client.Reply.{done_sentence}
use goros.Client.Sync.{run_sync}
use goros.Client.Sync.Laws.{Streams}
use goros.Client.Conversation.Refinement.{
  Said, Spells, sentences, said_bytes, read_said, body-Streams,
}
use goros.Client.Processor.{
  Attempt, normal, panic, ◌>>=◌, Processor, run, new_processor, run_returns,
}
use goros.Client.Async.{Client, new_client, deliver, loop_error}
use goros.Client.Async.Calls.{pending}
use goros.Client.Async.Closing.{Among}
use goros.Client.Async.Steps.{Reach, here, next, receives, Reach-IsSound, new_client-IsSound}
use goros.Client.Async.Rows.{mine, RowFor}
use goros.Client.Async.Rounds.{deliver_all}
use goros.Client.Async.Demultiplex.{answered_by, reply_of, deliver_all-synchronous}
use goros.Client.Async.Progress.{Reach-Advances, new_client-IsOrderly}
use goros.Client.Async.Loop.{
  async_loop, async_loop_chan, next_round, chan_gets, async_loop-LoopEnds,
}

-- No other goroutine takes a step.
abbrev pub alone : ℕ → Client → Client
alone n c = c

-- What the device says under a tag.
abbrev pub own : Text → List Said → List Said
own tag [] = []
own tag (s ∷ said) = if text_eq s.sentence.tag tag then s ∷ own tag said else own tag said

sentences-own :
    (tag : Text) (said : List Said) → sentences (own tag said) ≡ mine tag (sentences said)
sentences-own tag [] = refl
sentences-own tag (s ∷ said) = elim (Bool-cases (text_eq s.sentence.tag tag)) [
  | inl e ↦ rw (e, sentences-own tag said) refl
  | inr e ↦ rw (e, sentences-own tag said) refl
]

All-own : (tag : Text) (said : List Said) → All Spells said → All Spells (own tag said)
All-own tag [] h = tt
All-own tag (s ∷ said) h = elim (Bool-cases (text_eq s.sentence.tag tag)) [
  | inl e ↦ rw e (h.0, All-own tag said h.1)
  | inr e ↦ rw e (All-own tag said h.1)
]

-- The rounds one after another.
split_round :
    (r : Attempt Client) (sens : List Sentence) (c' : Client)
    → (r >>= λ d. deliver_all d sens) ≡ normal c'
    → (c1 : Client) × (r ≡ normal c1) × (deliver_all c1 sens ≡ normal c')
split_round panic sens c' h = absurd (cc)
split_round (normal d) sens c' h = (d, refl, h)

first_round :
    (c c' : Client) (sen : Sentence) (sens : List Sentence)
    → deliver_all c (sen ∷ sens) ≡ normal c'
    → (c1 : Client) × (deliver c sen ≡ normal c1) × (deliver_all c1 sens ≡ normal c')
unfolding deliver_all
first_round c c' sen sens h = split_round (deliver c sen) sens c' h

deliver_all-Reach :
    (k : Link) (c c' : Client) (sens : List Sentence)
    → deliver_all c sens ≡ normal c'
    → Reach k new_client c
    → Reach k new_client c'
unfolding deliver_all
deliver_all-Reach k c c' [] h r = subst (Reach k new_client) (cc (h)) r
deliver_all-Reach k c c' (sen ∷ sens) h r =
    let (c1, d, more) = first_round c c' sen sens h in
    deliver_all-Reach k c1 c' sens more (next r (receives sen d))

-- The loop on the bytes of what the device says is the loop on its sentences.
loop_said :
    (said : List Said) (fuel : ℕ) (c c' : Client) (u : Text)
    → All Spells said
    → length (said_bytes said ++ u) < fuel
    → deliver_all c (sentences said) ≡ normal c'
    → (j : ℕ) × (length u < j)
      × (async_loop fuel alone c (said_bytes said ++ u) ≡ async_loop j alone c' u)
unfolding deliver_all
loop_said [] fuel c c' u h f d = (fuel, f, ap (λ c. async_loop fuel alone c u) (cc (d)))
loop_said (s ∷ said) zero c c' u h f d = absurd (omega arith)
loop_said (s ∷ said) (suc fuel) c c' u h f d =
    let rest = said_bytes said ++ u in
    let (c1, first, more) = first_round c c' s.sentence (sentences said) d in
    let bytes = append_assoc (sentence_bytes s.words) (said_bytes said) u in
    let p = ap read_sentence bytes ∙ read_said s rest h.0 in
    let (j, room, same) =
      loop_said said fuel c1 c' u h.1
        (omega (arith, f, read_sentence-shortens (said_bytes (s ∷ said) ++ u) s.sentence rest p))
        more in
    (
      j,
      room,
      next_round fuel alone c c1 (said_bytes (s ∷ said) ++ u) rest s.sentence p first ∙ same,
    )

-- One more sentence behind the others.
sentences-append :
    (said : List Said) (s : Said)
    → sentences (said ++ (s ∷ [])) ≡ sentences said ++ (s.sentence ∷ [])
sentences-append [] s = refl
sentences-append (x ∷ said) s = ap (λ l. x.sentence ∷ l) (sentences-append said s)

said_bytes-append :
    (said : List Said) (s : Said) (u : Text)
    → said_bytes (said ++ (s ∷ [])) ++ u ≡ said_bytes said ++ (sentence_bytes s.words ++ u)
said_bytes-append [] s u = ap (λ (b : Text). b ++ u) (append-nil (sentence_bytes s.words))
said_bytes-append (x ∷ said) s u =
    append_assoc (sentence_bytes x.words) (said_bytes (said ++ (s ∷ []))) u
    ∙ ap (λ (b : Text). sentence_bytes x.words ++ b) (said_bytes-append said s u)
    ∙ sym (append_assoc (sentence_bytes x.words) (said_bytes said) (sentence_bytes s.words ++ u))

All-append_one :
    (said : List Said) (s : Said) → All Spells said → Spells s → All Spells (said ++ (s ∷ []))
All-append_one [] s h f = (f, tt)
All-append_one (x ∷ said) s h f = (h.0, All-append_one said s h.1 f)

-- The loop goes on behind what it has done, and ends.
loop_after :
    (k : Link) (c c' : Client) (said : List Said) (rest : Text)
    → Reach k new_client c
    → All Spells said
    → deliver_all c (sentences said) ≡ normal c'
    → (last : Client) × (e : GoError) × (async_loop_chan alone c (said_bytes said ++ rest)
        ≡ some (normal (last, loop_error last e)))
      × ((x : Text × Processor) → Among x c'.finished → Among x last.finished)
loop_after k c c' said rest r h d =
    let stream = said_bytes said ++ rest in
    let (j, room, same) = loop_said said (suc (length stream)) c c' rest h (omega arith) d in
    let reached = deliver_all-Reach k c c' (sentences said) d r in
    let sound = Reach-IsSound k new_client c' new_client-IsSound reached in
    let orderly =
      (Reach-Advances k new_client c' new_client-IsSound new_client-IsOrderly reached).1 in
    let (last, e, ended, f, gone, all, carried) =
      async_loop-LoopEnds k j alone c' rest sound orderly (λ n d. here) room in
    (last, e, chan_gets alone c last stream e (same ∙ ended), carried)

-- After every history of a client in asynchronous mode, while no other goroutine takes a step, over a
-- connection that delivers the bytes of any sentences of the device, of which those of a waiting call's
-- tag are rows, and then of the `!done` of that tag, whatever bytes follow: the loop runs to its end, and the call is left with the reply and
-- the error that the synchronous mode returns on the bytes of the call's own sentences alone.
pub async_loop_chan-synchronous :
    (k : Link) (c : Client) (tag : Text) (said : List Said) (final : Said) (rest : Text)
    → Reach k new_client c
    → pending c tag ≡ some (new_processor run none)
    → All Spells said
    → Spells final
    → All (RowFor tag) (sentences said)
    → final.sentence.tag ≡ tag
    → final.sentence.word ≡ done_sentence
    → (last : Client) × (e : GoError) × (p : Processor) × (async_loop_chan alone c
          (said_bytes said ++ (sentence_bytes final.words ++ rest))
        ≡ some (normal (last, loop_error last e)))
      × Among (tag, p) last.finished
      × (p.closed ≡ true)
      × (run_sync (said_bytes (own tag said) ++ (sentence_bytes final.words ++ rest))
          ≡ some (run_returns none p, some rest))
async_loop_chan-synchronous k c tag said final rest r w h hf rows t d =
    let u = sentence_bytes final.words ++ rest in
    let p = answered_by (reply_of tag (sentences said) final.sentence) in
    let spelt = All-append_one said final h hf in
    let streams =
      subst (λ l. Streams (said_bytes (own tag said) ++ u) l u) (sentences-own tag said)
        (body-Streams (own tag said) u (All-own tag said h)) in
    let ((c', did, gone, m), same) =
      deliver_all-synchronous k c tag (sentences said) final.sentence
        (said_bytes (own tag said) ++ u) u rest r w rows t d streams (read_said final rest hf) in
    let (last, e, ended, carried) =
      loop_after k c c' (said ++ (final ∷ [])) rest r spelt
        (ap (deliver_all c) (sentences-append said final) ∙ did) in
    (
      last,
      e,
      p,
      ap (async_loop_chan alone c) (sym (said_bytes-append said final rest)) ∙ ended,
      carried (tag, p) m,
      refl,
      same,
    )
