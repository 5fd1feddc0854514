-- ===== src/Client/Async/Sound.antt =====
-- The invariant of the asynchronous mode, and that no round of the loop panics.
use goros.Common.{
  ℕ, ◌≤◌, Text, text, text_eq, Bool, true, false, ◌||◌, [], ◌∷◌, ◌++◌, Option, none, some, ◌≡◌, ◌≢◌,
  refl, subst, ◌⊎◌, inl, inr, arith, All, if◌then◌else◌, Bool-cases, Option-cases, is_empty,
}
use goros.Common.Assoc.{
  Assoc, lookup, keys, Values, Values-insert, Values-erase, Values-lookup, keys-insert, keys-erase,
  keys-lookup, get_or_empty,
}
use goros.Roserr.{GoError, device, unknown_reply}
use goros.Proto.Sentence.{Sentence}
use goros.Client.Reply.{re_sentence, done_sentence, trap_sentence, fatal_sentence, empty_sentence}
use goros.Client.Processor.{
  Attempt, normal, panic, ◌>>=◌, Kind, run, listen, Processor, process, dispatch, process_listen,
  process_run, close, close_stop, finish, with_done,
}
use goros.Client.Async.{
  Client, run_tag, listen_tag, cancel_tag_name, is_over, settle, deliver, close_all, close_tags,
}

-- Neither channel of the receiver is closed.
abbrev pub IsOpen : Processor → Type 0
IsOpen p = (p.closed ≡ false) × ((p.stop ≡ none) ⊎ (p.stop ≡ some false))

-- A tag that the client has given out.
abbrev pub IsIssued : ℕ → Text → Type 0
IsIssued n tag =
    (m : ℕ) × (m ≤ n) × ((tag ≡ run_tag m) ⊎ (tag ≡ listen_tag m) ⊎ (tag ≡ cancel_tag_name m))

abbrev pub TagsOpen : Option (Assoc Processor) → Type 0
TagsOpen none = Unit
TagsOpen (some tags) = Values IsOpen tags

abbrev pub TagsIssued : ℕ → Option (Assoc Processor) → Type 0
TagsIssued n none = Unit
TagsIssued n (some tags) = All (IsIssued n) (keys tags)

-- Whoever is registered under a tag can still be closed, and no tag is registered that was not
-- given out.
pub record IsSound (c : Client) : Type 0 where
  pub open_receivers : TagsOpen c.tags
  pub issued_tags : TagsIssued c.next_tag c.tags

-- A receiver that can still be closed takes any sentence without a panic; its channel stays open,
-- and so does its stop channel unless the sentence is its last.
abbrev pub Takes : Attempt (Processor × Bool × Option GoError) → Type 0
Takes panic = ⊥
Takes (normal (p, done, e)) = (p.closed ≡ false) × (is_over done e ≡ false → IsOpen p)

Takes-if :
    (b : Bool) (x y : Attempt (Processor × Bool × Option GoError))
    → Takes x
    → Takes y
    → Takes (if b then x else y)
Takes-if true x y hx hy = hx
Takes-if false x y hx hy = hy

Takes-guard :
    (b : Bool) (x : Attempt (Processor × Bool × Option GoError))
    → b ≡ false
    → Takes x
    → Takes (if b then panic else x)
Takes-guard true x e h = absurd (cc)
Takes-guard false x e h = h

is_over-true : (e : Option GoError) → is_over true e ≢ false
is_over-true none h = cc
is_over-true (some e) h = cc

Takes-finish : (p : Processor) (e : Option GoError) → IsOpen p → Takes (finish p e)
unfolding close_stop
Takes-finish p e (shut, inl s) = rw (s, close_stop) (shut, λ f. absurd (is_over-true e f))
Takes-finish p e (shut, inr s) = rw (s, close_stop) (shut, λ f. absurd (is_over-true e f))

Takes-listen : (p : Processor) (sen : Sentence) → IsOpen p → Takes (process_listen p sen)
unfolding process_listen
Takes-listen p sen h =
    let received = record p { reply = record p.reply { re = p.reply.re ++ (sen ∷ []) } } in
    let category = text_eq (get_or_empty (text "category") sen.attributes) (text "2") in
    let quiet = is_empty sen.word || text_eq sen.word empty_sentence in
    let broken = Takes-finish p (some (device sen)) h in
    let completed = Takes-finish (with_done p sen) none h in
    Takes-if (text_eq sen.word re_sentence) _ _
      (Takes-guard p.closed (normal (received, false, none)) h.0 (h.0, λ _. h))
      (Takes-if (text_eq sen.word done_sentence) _ _ completed (
        Takes-if (text_eq sen.word trap_sentence) _ _ (Takes-if category _ _ completed broken) (
          Takes-if (text_eq sen.word fatal_sentence) _ _ broken
            (Takes-if quiet _ _ (h.0, λ _. h) (Takes-finish p (some (unknown_reply sen)) h)))))

Takes-run : (p : Processor) (sen : Sentence) → IsOpen p → Takes (process_run p sen)
unfolding process_run
Takes-run p sen h = (h.0, λ _. h)

Takes-dispatch :
    (kind : Kind) (p : Processor) (sen : Sentence) → IsOpen p → Takes (dispatch kind p sen)
unfolding dispatch
Takes-dispatch run p sen h = Takes-run p sen h
Takes-dispatch listen p sen h = Takes-listen p sen h

Takes-process : (p : Processor) (sen : Sentence) → IsOpen p → Takes (process p sen)
unfolding process
Takes-process p sen h = Takes-dispatch p.kind p sen h

close_open :
    (e : Option GoError) (p : Processor)
    → p.closed ≡ false
    → (p' : Processor) × (close e p ≡ normal p') × (p'.closed ≡ true)
unfolding close
close_open e p h = (
  record p { err = elim p.err [ none ↦ e | some old ↦ some old ]; closed = true },
  ground arith,
  refl,
)

-- The new state is sound, and there is one.
abbrev pub StaysSound : Attempt Client → Type 0
StaysSound panic = ⊥
StaysSound (normal c) = IsSound c

settle_sound :
    (c : Client) (tags : Assoc Processor) (tag : Text) (p : Processor) (done : Bool)
    (e : Option GoError)
    → IsSound c
    → c.tags ≡ some tags
    → IsIssued c.next_tag tag
    → Takes (normal (p, done, e))
    → StaysSound (settle c tags tag p done e)
unfolding settle
settle_sound c tags tag p done e s t issued (shut, open_after) =
    elim (Bool-cases (is_over done e)) [
      | inl over ↦
          let (p', did, _) = close_open e p shut in
          rw (over, did)
            (record {
              open_receivers = Values-erase IsOpen tag tags (subst TagsOpen t s.open_receivers);
              issued_tags =
                  keys-erase (IsIssued c.next_tag) tag tags
                    (subst (TagsIssued c.next_tag) t s.issued_tags);
            })
      | inr more ↦ rw more (record {
        open_receivers =
            Values-insert IsOpen tag p tags (open_after more) (subst TagsOpen t s.open_receivers);
        issued_tags =
            keys-insert (IsIssued c.next_tag) tag p tags issued
              (subst (TagsIssued c.next_tag) t s.issued_tags);
      })
    ]

settle_taken :
    (c : Client) (tags : Assoc Processor) (tag : Text)
    (r : Attempt (Processor × Bool × Option GoError))
    → IsSound c
    → c.tags ≡ some tags
    → IsIssued c.next_tag tag
    → Takes r
    → StaysSound (r >>= λ (p', done, e). settle c tags tag p' done e)
settle_taken c tags tag panic s t issued h = h
settle_taken c tags tag (normal (p, done, e)) s t issued h =
    settle_sound c tags tag p done e s t issued h

-- A round of `asyncLoop` never closes a closed channel nor sends on one, and keeps the invariant.
pub deliver-IsSound : (c : Client) (sen : Sentence) → IsSound c → StaysSound (deliver c sen)
unfolding deliver
deliver-IsSound c sen s = elim (Option-cases c.tags) [
  | inl t ↦ rw (t, deliver) s
  | inr (tags, t) ↦ elim (Option-cases (lookup sen.tag tags)) [
    | inl f ↦ rw (t, deliver) (rw (f, deliver) s)
    | inr (p, f) ↦
        rw (t, deliver)
          (rw (f, deliver)
            (settle_taken c tags sen.tag (process p sen) s t
              (keys-lookup (IsIssued c.next_tag) sen.tag tags
                (subst (TagsIssued c.next_tag) t s.issued_tags) f)
              (Takes-process p sen
                (Values-lookup IsOpen sen.tag tags (subst TagsOpen t s.open_receivers) f))))
  ]
]

close_all-normal :
    (e : Option GoError) (tags finished : Assoc Processor)
    → Values IsOpen tags
    → (all : Assoc Processor) × (close_all e tags finished ≡ normal all)
unfolding close_all
close_all-normal e [] finished h = (finished, refl)
close_all-normal e ((tag, p) ∷ tags) finished h =
    let (p', did, _) = close_open e p h.0.0 in
    let (all, same) = close_all-normal e tags ((tag, p') ∷ finished) h.1 in (all, rw did same)

-- `closeTags` closes every receiver without a panic, and leaves no tag registered.
pub close_tags-IsSound : (c : Client) (e : GoError) → IsSound c → StaysSound (close_tags e c)
unfolding close_tags
close_tags-IsSound c e s = elim (Option-cases c.tags) [
  | inl t ↦ rw (t, close_tags) s
  | inr (tags, t) ↦
      let given : Option GoError = if c.closing then none else some e in
      let (all, same) =
        close_all-normal given tags c.finished (subst TagsOpen t s.open_receivers) in
      rw (t, close_tags) (rw same (record { open_receivers = tt; issued_tags = tt }))
]
