-- ===== src/Client/Async/Ended.antt =====
-- What a call or a sentence leaves alone, and what happens after the loop has ended.
use goros.Common.{
  ◌+◌, if◌then◌else◌, Text, text, text_eq, text_eq_iff, Bool, true, false, List, [], ◌∷◌, ◌++◌,
  Option, none, some, ◌≡◌, ◌≢◌, refl, sym, subst, ◌∙◌, inl, inr, arith, Bool-cases, Option-cases,
}
use goros.Common.Assoc.{Assoc, lookup, insert, keys, lookup-absent, lookup-insert, lookup-erase}
use goros.Roserr.{GoError, async_loop_ended}
use goros.Proto.Sentence.{Sentence}
use goros.Proto.Writer.{Writer, Link, begin_sentence, end_sentence, write, write_word, write_words}
use goros.Client.Processor.{Attempt, normal, panic, ◌>>=◌, run, Processor, new_processor, process}
use goros.Client.Async.{
  Client, run_tag, settle, deliver, blocked, failed, waiting, start_run, run_locked, register_run,
  tagged,
}
use goros.Client.Async.Sound.{IsSound, TagsIssued}
use goros.Client.Async.Calls.Tags.{All-new}
use goros.Client.Async.Calls.{pending}

settle_others :
    (c c' : Client) (tags : Assoc Processor) (tag j : Text) (p : Processor) (done : Bool)
    (e : Option GoError)
    → c.tags ≡ some tags
    → j ≢ tag
    → settle c tags tag p done e ≡ normal c'
    → pending c' j ≡ pending c j
unfolding settle
settle_others c c' tags tag j p done e t ne h =
    ground (arith, lookup-insert tag j p tags, lookup-erase tag j tags, text_eq_iff tag j)

taken_others :
    (c c' : Client) (tags : Assoc Processor) (tag j : Text)
    (r : Attempt (Processor × Bool × Option GoError))
    → c.tags ≡ some tags
    → j ≢ tag
    → (r >>= λ (p', done, e). settle c tags tag p' done e) ≡ normal c'
    → pending c' j ≡ pending c j
taken_others c c' tags tag j panic t ne h = absurd (cc)
taken_others c c' tags tag j (normal (p, done, e)) t ne h =
    settle_others c c' tags tag j p done e t ne h

pub deliver_taken :
    (c : Client) (sen : Sentence) (tags : Assoc Processor) (p : Processor)
    → c.tags ≡ some tags
    → lookup sen.tag tags ≡ some p
    → deliver c sen ≡ (process p sen >>= λ (p', done, e). settle c tags sen.tag p' done e)
unfolding deliver
deliver_taken c sen tags p t f = rw (t, deliver) (rw (f, deliver) refl)

-- A sentence that the loop reads changes only what waits under its own tag.
pub deliver_others :
    (c c' : Client) (sen : Sentence) (j : Text)
    → deliver c sen ≡ normal c'
    → j ≢ sen.tag
    → pending c' j ≡ pending c j
unfolding deliver
deliver_others c c' sen j h ne = elim (Option-cases c.tags) [
  | inl t ↦ ground arith
  | inr (tags, t) ↦ elim (Option-cases (lookup sen.tag tags)) [
    | inl f ↦ ground arith
    | inr (p, f) ↦
        taken_others c c' tags sen.tag j (process p sen) t ne
          (sym (deliver_taken c sen tags p t f) ∙ h)
  ]
]

write-locked : (k : Link) (b : Text) (w : Writer) → (write k b w).locked ≡ w.locked
unfolding write
write-locked k b w = ground arith

write_word-locked : (k : Link) (b : Text) (w : Writer) → (write_word k b w).locked ≡ w.locked
unfolding write_word
write_word-locked k b w = write-locked k b _ ∙ write-locked k _ w

write_words-locked :
    (k : Link) (ws : List Text) (w : Writer) → (write_words k ws w).locked ≡ w.locked
unfolding write_words
write_words-locked k [] w = refl
write_words-locked k (b ∷ ws) w =
    write_words-locked k ws (write_word k b w) ∙ write_word-locked k b w

start_run_locked :
    (k : Link) (c : Client) (sentences : List Text)
    → c.writer.locked ≡ true
    → start_run k c sentences ≡ blocked
unfolding start_run begin_sentence
start_run_locked k c sentences h = ground arith

-- Once the loop has ended, the first `RunArgsContext` that finds the writer free returns
-- `errAsyncLoopEnded` without freeing the writer's lock again, and every later one waits for that lock
-- for good.
pub start_run_ended :
    (k : Link) (c : Client) (sentences : List Text)
    → c.async ≡ true
    → c.tags ≡ none
    → c.writer.locked ≡ false
    → (c' : Client) × (start_run k c sentences ≡ failed c' async_loop_ended)
      × ((later : List Text) → start_run k c' later ≡ blocked)
unfolding start_run run_locked begin_sentence
start_run_ended k c sentences on t free =
    let tag = run_tag (c.next_tag + 1) in
    let w = tagged k sentences tag (record c.writer { locked = true }) in
    let c' = record c { writer = w; next_tag = c.next_tag + 1 } in
    (
      c',
      ground arith,
      λ later.
          start_run_locked k c' later
            (write_word-locked k (text ".tag=" ++ tag) _ ∙ write_words-locked k sentences _),
    )

register_run_waiting :
    (k : Link) (c c' : Client) (tag tag' : Text) (tags : Assoc Processor)
    → register_run k c tag tags ≡ waiting c' tag'
    → (tag' ≡ tag) × (c'.tags ≡ some (insert tag (new_processor run none) tags))
unfolding register_run
register_run_waiting k c c' tag tag' tags h = elim (Option-cases (end_sentence k c.writer).1) [
  | inl f ↦ ground (arith, f)
  | inr (x, f) ↦ absurd (ground (arith, f))
]

run_locked_waiting :
    (k : Link) (c c' : Client) (sentences : List Text) (w : Writer) (tag : Text)
    → run_locked k c sentences w ≡ waiting c' tag
    → (tags : Assoc Processor) × (c.tags ≡ some tags)
      × (tag ≡ run_tag (c.next_tag + 1))
      × (c'.tags ≡ some (insert (run_tag (c.next_tag + 1)) (new_processor run none) tags))
unfolding run_locked
run_locked_waiting k c c' sentences w tag h = elim (Bool-cases c.async) [
  | inr off ↦ absurd (ground arith)
  | inl on ↦ elim (Option-cases c.tags) [
    | inl t ↦ absurd (ground arith)
    | inr (tags, t) ↦
        let new = run_tag (c.next_tag + 1) in
        let c0 = record c { writer = tagged k sentences new w; next_tag = c.next_tag + 1 } in
        let sent : register_run k c0 new tags ≡ waiting c' tag = ground arith in
        let (same, added) = register_run_waiting k c0 c' new tag tags sent in (tags, t, same, added)
  ]
]

-- A request that is sent from a client that keeps the invariant waits under a tag that nothing waited
-- under before, with a receiver that has got nothing yet; whoever waits under another tag is left alone.
pub start_run-fresh :
    (k : Link) (c c' : Client) (sentences : List Text) (tag : Text)
    → IsSound c
    → start_run k c sentences ≡ waiting c' tag
    → (pending c tag ≡ none)
      × ((j : Text)
          → pending c' j ≡ (if text_eq tag j then some (new_processor run none) else pending c j))
unfolding start_run
start_run-fresh k c c' sentences tag s h = elim (Option-cases (begin_sentence c.writer)) [
  | inl b ↦ absurd (ground arith)
  | inr (w, b) ↦
      let sent : run_locked k c sentences w ≡ waiting c' tag = ground arith in
      let (tags, t, same, added) = run_locked_waiting k c c' sentences w tag sent in
      let new = run_tag (c.next_tag + 1) in
      let absent =
        lookup-absent new tags
          (All-new c.next_tag b'r' (keys tags) (subst (TagsIssued c.next_tag) t s.issued_tags)) in
      (
        ground arith,
        λ j. ground (arith, lookup-insert new j (new_processor run none) tags, text_eq_iff new j),
      )
]
