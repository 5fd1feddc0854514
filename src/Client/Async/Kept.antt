-- ===== src/Client/Async/Kept.antt =====
-- That a call of `RunArgsContext` leaves the receivers of other calls where they are.
pub mod Listens
use goros.Common.{
  ℕ, ◌+◌, Text, text, text_eq_iff, Bool, true, false, List, [], ◌∷◌, ◌++◌, Option, none, some, ◌≡◌,
  refl, sym, subst, ◌∙◌, inl, inr, arith, Bool-cases, Option-cases,
}
use goros.Common.Assoc.{
  Assoc, lookup, insert, erase, keys, lookup-insert, lookup-erase, lookup-absent,
}
use goros.Common.Decimal.{decimal}
use goros.Roserr.{async_loop_ended}
use goros.Proto.Writer.{Writer, Link, begin_sentence, write_words, end_sentence}
use goros.Client.Processor.{run, listen, Processor, new_processor}
use goros.Client.Async.{
  Client, run_tag, listen_tag, cancel_tag_name, Started, blocked, failed, synchronous, waiting,
  tagged, register_run, run_locked, start_run, register_listen, listen_started, start_listen,
  async_context, register_cancel, send_cancel,
}
use goros.Client.Async.Sound.{IsSound, TagsIssued}
use goros.Client.Async.Calls.Tags.{All-new}
use goros.Client.Async.Calls.{pending, async_context-IsSound}

-- Before `Async` is called, the map `tags` is nil.
abbrev pub IsOrderly : Client → Type 0
IsOrderly c = c.async ≡ false → c.tags ≡ none

-- Who waits goes on waiting, and who was finished still is.
abbrev pub Keeps : Client → Client → Type 0
Keeps c c' =
    ((j : Text) (p : Processor) → pending c j ≡ some p → pending c' j ≡ some p)
    × (c'.finished ≡ c.finished)
    × IsOrderly c'

abbrev pub StartedKeeps : Client → Started → Type 0
StartedKeeps c blocked = Unit
StartedKeeps c (failed c' e) = Keeps c c'
StartedKeeps c (synchronous c') = Keeps c c'
StartedKeeps c (waiting c' tag) = Keeps c c'

-- A call is what it comes to.
by_result : (c : Client) (r r' : Started) → r ≡ r' → StartedKeeps c r' → StartedKeeps c r
by_result c r r' e h = subst (StartedKeeps c) (sym e) h

-- Only the writer and the number of tags change.
abbrev counted : Client → Writer → ℕ → Client
counted c w n = record c { writer = w; next_tag = n }

counted-Keeps : (c : Client) (w : Writer) (n : ℕ) → IsOrderly c → Keeps c (counted c w n)
counted-Keeps c w n o = (λ j p h. h, refl, o)

pending_in :
    (c : Client) (tags : Assoc Processor) (j : Text) (p : Processor)
    → c.tags ≡ some tags
    → pending c j ≡ some p
    → lookup j tags ≡ some p
pending_in c tags j p t h = ground arith

not_orderly :
    (c : Client) (tags : Assoc Processor) (new : Assoc Processor)
    → IsOrderly c
    → c.tags ≡ some tags
    → c.async ≡ false
    → ◌≡◌ {A = Option (Assoc Processor)} (some new) none
not_orderly c tags new o t off = absurd (let e = o off in cc)

added_pending :
    (tags : Assoc Processor) (tag j : Text) (new p : Processor)
    → lookup tag tags ≡ none
    → lookup j tags ≡ some p
    → lookup j (insert tag new tags) ≡ some p
added_pending tags tag j new p absent h =
    ground (arith, lookup-insert tag j new tags, text_eq_iff tag j)

erased_pending :
    (tags : Assoc Processor) (tag j : Text) (new p : Processor)
    → lookup tag tags ≡ none
    → lookup j tags ≡ some p
    → lookup j (erase tag (insert tag new tags)) ≡ some p
erased_pending tags tag j new p absent h = ground (
  arith,
  lookup-insert tag j new tags,
  lookup-erase tag j (insert tag new tags),
  text_eq_iff tag j,
)

-- A receiver registered under a new tag, and one that is taken out again at once.
module _ (c : Client) (w : Writer) (n : ℕ) (tag : Text) (new : Processor) (tags : Assoc Processor)
    (o : IsOrderly c) (t : c.tags ≡ some tags) (absent : lookup tag tags ≡ none) where
  added-Keeps : Keeps c (record c { writer = w; next_tag = n; tags = some (insert tag new tags) })
  added-Keeps = (
    λ j p h. added_pending tags tag j new p absent (pending_in c tags j p t h),
    refl,
    not_orderly c tags (insert tag new tags) o t,
  )

  erased-Keeps :
      Keeps c (record c { writer = w; next_tag = n; tags = some (erase tag (insert tag new tags)) })
  erased-Keeps = (
    λ j p h. erased_pending tags tag j new p absent (pending_in c tags j p t h),
    refl,
    not_orderly c tags (erase tag (insert tag new tags)) o t,
  )

-- The next tag of a client that keeps the invariant is under no receiver.
next_absent :
    (c : Client) (b : ℕ) (tags : Assoc Processor)
    → IsSound c
    → c.tags ≡ some tags
    → lookup (b ∷ decimal (c.next_tag + 1)) tags ≡ none
next_absent c b tags s t =
    lookup-absent (b ∷ decimal (c.next_tag + 1)) tags
      (All-new c.next_tag b (keys tags) (subst (TagsIssued c.next_tag) t s.issued_tags))

register_run-Keeps :
    (k : Link) (c : Client) (w : Writer) (n : ℕ) (tag : Text) (tags : Assoc Processor)
    → IsOrderly c
    → c.tags ≡ some tags
    → lookup tag tags ≡ none
    → StartedKeeps c (register_run k (counted c w n) tag tags)
unfolding register_run
register_run-Keeps k c w n tag tags o t absent =
    let new = new_processor run none in
    let w' = (end_sentence k w).0 in
    elim (Option-cases (end_sentence k w).1) [
      | inl f ↦ rw (f, register_run) (added-Keeps c w' n tag new tags o t absent)
      | inr (x, f) ↦ rw (f, register_run) (erased-Keeps c w' n tag new tags o t absent)
    ]

run_locked-Keeps :
    (k : Link) (c : Client) (sentences : List Text) (w : Writer)
    → IsSound c
    → IsOrderly c
    → StartedKeeps c (run_locked k c sentences w)
unfolding run_locked
run_locked-Keeps k c sentences w s o =
    let tag = run_tag (c.next_tag + 1) in
    let w' = tagged k sentences tag w in
    let n = c.next_tag + 1 in
    elim (Bool-cases c.async) [
      | inr off ↦
          let w'' = write_words k sentences w in
          by_result c (run_locked k c sentences w) (synchronous (counted c w'' c.next_tag))
            (ground arith) (counted-Keeps c w'' c.next_tag o)
      | inl on ↦ elim (Option-cases c.tags) [
        | inl t ↦
            by_result c (run_locked k c sentences w) (failed (counted c w' n) async_loop_ended)
              (ground arith) (counted-Keeps c w' n o)
        | inr (tags, t) ↦
            by_result c (run_locked k c sentences w) (register_run k (counted c w' n) tag tags)
              (ground arith)
              (register_run-Keeps k c w' n tag tags o t (next_absent c b'r' tags s t))
      ]
    ]

pub start_run-Keeps :
    (k : Link) (c : Client) (sentences : List Text)
    → IsSound c
    → IsOrderly c
    → StartedKeeps c (start_run k c sentences)
unfolding start_run
start_run-Keeps k c sentences s o = elim (Option-cases (begin_sentence c.writer)) [
  | inl b ↦ rw (b, start_run) tt
  | inr (w, b) ↦ rw (b, start_run) (run_locked-Keeps k c sentences w s o)
]
