-- ===== src/Client/Async/Calls.antt =====
-- Each call of the asynchronous mode registers a fresh tag and keeps the invariant.
pub mod Tags
use goros.Common.{
  ℕ, ◌+◌, Text, text, Bool, true, false, List, [], ◌∷◌, ◌++◌, Option, none, some, ◌≡◌, ◌≢◌, refl,
  sym, subst, ◌∙◌, ◌⊎◌, inl, inr, arith, All, if◌then◌else◌, Bool-cases, Option-cases,
}
use goros.Common.Assoc.{
  Assoc, lookup, insert, erase, keys, Values-insert, Values-erase, keys-insert, keys-erase,
}
use goros.Common.Decimal.{decimal, decimal_injective}
use goros.Roserr.{GoError, already_async}
use goros.Proto.Writer.{Writer, Link, begin_sentence, end_sentence}
use goros.Client.Processor.{run, listen, Processor, new_processor}
use goros.Client.Async.{
  Client, run_tag, listen_tag, cancel_tag_name, async_context, Started, blocked, failed,
  synchronous, waiting, start_run, run_locked, register_run, start_listen, listen_started,
  register_listen, register_cancel, send_cancel, tagged,
}
use goros.Client.Async.Sound.{IsOpen, IsIssued, TagsOpen, TagsIssued, IsSound}
use goros.Client.Async.Calls.Tags.{
  more_tags, more_tags-IsSound, added-IsSound, erased-IsSound, other_writer-IsSound,
}

-- The receiver that waits under a tag.
abbrev pub pending : Client → Text → Option Processor
pending c tag = elim c.tags [ none ↦ none | some tags ↦ lookup tag tags ]

-- The client that a call leaves is sound.
abbrev pub StartedSound : Started → Type 0
StartedSound blocked = Unit
StartedSound (failed c e) = IsSound c
StartedSound (synchronous c) = IsSound c
StartedSound (waiting c tag) = IsSound c

register_run-IsSound :
    (k : Link) (c : Client) (tag : Text) (tags : Assoc Processor)
    → IsSound c
    → c.tags ≡ some tags
    → IsIssued c.next_tag tag
    → StartedSound (register_run k c tag tags)
unfolding register_run
register_run-IsSound k c tag tags s t issued =
    let (w, e) = end_sentence k c.writer in
    let added = added-IsSound c w tag (new_processor run none) tags s t (refl, inl refl) issued in
    elim (Option-cases (end_sentence k c.writer).1) [
      | inl f ↦ rw (f, register_run) added
      | inr (x, f) ↦
          rw (f, register_run)
            (erased-IsSound
              (record c { writer = w; tags = some (insert tag (new_processor run none) tags) }) w
              tag (insert tag (new_processor run none) tags) added refl)
    ]

run_locked-IsSound :
    (k : Link) (c : Client) (sentences : List Text) (w : Writer)
    → IsSound c
    → StartedSound (run_locked k c sentences w)
unfolding run_locked
run_locked-IsSound k c sentences w s = elim (Bool-cases c.async) [
  | inr off ↦ rw off (record { open_receivers = s.open_receivers; issued_tags = s.issued_tags })
  | inl on ↦
      let tag = run_tag (c.next_tag + 1) in
      let c' = more_tags c (tagged k sentences tag w) in
      elim (Option-cases c.tags) [
        | inl t ↦ rw on (rw (t, run_locked) (more_tags-IsSound c (tagged k sentences tag w) s))
        | inr (tags, t) ↦ rw on (
            rw (t, run_locked)
              (register_run-IsSound k c' tag tags (more_tags-IsSound c (tagged k sentences tag w) s)
                t (c.next_tag + 1, omega arith, inl refl)))
      ]
]

-- `RunArgsContext` keeps the invariant, whatever the connection does.
pub start_run-IsSound :
    (k : Link) (c : Client) (sentences : List Text)
    → IsSound c
    → StartedSound (start_run k c sentences)
unfolding start_run
start_run-IsSound k c sentences s = elim (Option-cases (begin_sentence c.writer)) [
  | inl b ↦ rw (b, start_run) tt
  | inr (w, b) ↦ rw (b, start_run) (run_locked-IsSound k c sentences w s)
]

register_listen-IsSound :
    (k : Link) (c : Client) (tag : Text) (stop : Option Bool)
    → IsSound c
    → (stop ≡ none) ⊎ (stop ≡ some false)
    → IsIssued c.next_tag tag
    → StartedSound (register_listen k c tag stop)
unfolding register_listen
register_listen-IsSound k c tag stop s fits issued =
    let w = (end_sentence k c.writer).0 in
    let same : IsSound (record c { writer = w }) = record {
      open_receivers = s.open_receivers;
      issued_tags = s.issued_tags;
    } in
    elim (Option-cases (end_sentence k c.writer).1) [
      | inr (x, f) ↦ rw (f, register_listen) same
      | inl f ↦ elim (Option-cases c.tags) [
        | inl t ↦ rw (f, register_listen) (rw (t, register_listen) same)
        | inr (tags, t) ↦
            rw (f, register_listen)
              (rw (t, register_listen)
                (added-IsSound c w tag (new_processor listen stop) tags s t (refl, fits) issued))
      ]
    ]

listen_started-IsSound :
    (k : Link) (c : Client) (sentence : List Text) (stop : Option Bool)
    → IsSound c
    → (stop ≡ none) ⊎ (stop ≡ some false)
    → StartedSound (listen_started k c sentence stop)
unfolding listen_started
listen_started-IsSound k c sentence stop s fits =
    let tag = listen_tag (c.next_tag + 1) in
    elim (Option-cases (begin_sentence c.writer)) [
      | inl b ↦ rw (b, listen_started) tt
      | inr (w, b) ↦
          rw (b, listen_started)
            (register_listen-IsSound k (more_tags c (tagged k sentence tag w)) tag stop
              (more_tags-IsSound c (tagged k sentence tag w) s) fits
              (c.next_tag + 1, omega arith, inr (inl refl)))
    ]

Sound-if : (b : Bool) (x y : Client) → IsSound x → IsSound y → IsSound (if b then x else y)
Sound-if true x y hx hy = hx
Sound-if false x y hx hy = hy

Sound-if_first :
    (b : Bool) (x y : Client × Option GoError)
    → IsSound x.0
    → IsSound y.0
    → IsSound (if b then x else y).0
Sound-if_first true x y hx hy = hx
Sound-if_first false x y hx hy = hy

pub async_context-IsSound : (c : Client) → IsSound c → IsSound (async_context c).0
unfolding async_context
async_context-IsSound c s =
    Sound-if_first c.async (c, some already_async) (record c { async = true; tags = some [] }, none)
      s (record { open_receivers = tt; issued_tags = tt })

-- `ListenArgsQueueContext` keeps the invariant, whatever the connection does.
pub start_listen-IsSound :
    (k : Link) (c : Client) (sentence : List Text) (stop : Option Bool)
    → IsSound c
    → (stop ≡ none) ⊎ (stop ≡ some false)
    → StartedSound (start_listen k c sentence stop)
unfolding start_listen
start_listen-IsSound k c sentence stop s fits =
    listen_started-IsSound k (if c.async then c else (async_context c).0) sentence stop
      (Sound-if c.async c (async_context c).0 s (async_context-IsSound c s)) fits

-- The first half of `cancelTag` keeps the invariant.
pub register_cancel-IsSound : (c : Client) → IsSound c → IsSound (register_cancel c).0
unfolding register_cancel
register_cancel-IsSound c s = elim (Option-cases c.tags) [
  | inl t ↦ rw (t, register_cancel) (more_tags-IsSound c c.writer s)
  | inr (tags, t) ↦
      rw (t, register_cancel)
        (added-IsSound (more_tags c c.writer) c.writer (cancel_tag_name (c.next_tag + 1))
          (new_processor run none) tags (more_tags-IsSound c c.writer s) t (refl, inl refl)
          (c.next_tag + 1, omega arith, inr (inr refl)))
]

-- So does the second half.
pub send_cancel-IsSound :
    (k : Link) (c c' : Client) (target tag : Text)
    → IsSound c
    → send_cancel k target tag c ≡ some c'
    → IsSound c'
unfolding send_cancel
send_cancel-IsSound k c c' target tag s e = elim (Option-cases (begin_sentence c.writer)) [
  | inl b ↦ absurd (ground arith)
  | inr (w, b) ↦
      let words = text "/cancel" ∷ (text "=tag=" ++ target) ∷ [] in
      subst IsSound (ground arith)
        (other_writer-IsSound c (end_sentence k (tagged k words tag w)).0 s)
]
