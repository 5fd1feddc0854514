-- ===== src/Client/Async/Kept/Listens.antt =====
-- The same of `AsyncContext`, `ListenArgsQueueContext` and `cancelTag`.
use goros.Common.{
  ℕ, ◌+◌, Text, text, Bool, true, List, [], ◌∷◌, ◌++◌, Option, none, some, ◌≡◌, refl, sym, subst,
  ◌∙◌, inl, inr, arith, Bool-cases, Option-cases,
}
use goros.Common.Assoc.{Assoc, lookup, insert}
use goros.Roserr.{async_loop_ended}
use goros.Proto.Writer.{Writer, Link, begin_sentence, end_sentence}
use goros.Client.Processor.{run, listen, Processor, new_processor}
use goros.Client.Async.{
  Client, listen_tag, cancel_tag_name, Started, blocked, failed, synchronous, waiting, tagged,
  register_listen, listen_started, start_listen, async_context, register_cancel, send_cancel,
}
use goros.Client.Async.Sound.{IsSound}
use goros.Client.Async.Calls.{pending, async_context-IsSound}
use goros.Client.Async.Kept.{
  IsOrderly, Keeps, StartedKeeps, by_result, counted, counted-Keeps, added-Keeps, next_absent,
}

register_listen-Keeps :
    (k : Link) (c : Client) (w : Writer) (n : ℕ) (tag : Text) (stop : Option Bool)
    → IsOrderly c
    → ((tags : Assoc Processor) → c.tags ≡ some tags → lookup tag tags ≡ none)
    → StartedKeeps c (register_listen k (counted c w n) tag stop)
unfolding register_listen
register_listen-Keeps k c w n tag stop o absent =
    let w' = (end_sentence k w).0 in
    let new = new_processor listen stop in
    elim (Option-cases (end_sentence k w).1) [
      | inr (x, f) ↦
          by_result c (register_listen k (counted c w n) tag stop) (failed (counted c w' n) x)
            (ground arith) (counted-Keeps c w' n o)
      | inl f ↦ elim (Option-cases c.tags) [
        | inl t ↦
            by_result c (register_listen k (counted c w n) tag stop)
              (failed (counted c w' n) async_loop_ended) (ground arith) (counted-Keeps c w' n o)
        | inr (tags, t) ↦
            by_result c (register_listen k (counted c w n) tag stop)
              (waiting (record c { writer = w'; next_tag = n; tags = some (insert tag new tags) })
                tag)
              (ground arith) (added-Keeps c w' n tag new tags o t (absent tags t))
      ]
    ]

listen_started-Keeps :
    (k : Link) (c : Client) (sentence : List Text) (stop : Option Bool)
    → IsSound c
    → IsOrderly c
    → StartedKeeps c (listen_started k c sentence stop)
unfolding listen_started
listen_started-Keeps k c sentence stop s o =
    let tag = listen_tag (c.next_tag + 1) in
    elim (Option-cases (begin_sentence c.writer)) [
      | inl b ↦ rw (b, listen_started) tt
      | inr (w, b) ↦
          rw (b, listen_started)
            (register_listen-Keeps k c (tagged k sentence tag w) (c.next_tag + 1) tag stop o
              (λ tags t. next_absent c b'l' tags s t))
    ]

-- `AsyncContext` makes the map only where it was nil.
none_waits :
    (c c' : Client) (j : Text) (p : Processor)
    → c.tags ≡ none
    → pending c j ≡ some p
    → pending c' j ≡ some p
none_waits c c' j p t h = absurd (ground arith)

pub async_context-Keeps : (c : Client) → IsOrderly c → Keeps c (async_context c).0
unfolding async_context
async_context-Keeps c o = elim (Bool-cases c.async) [
  | inl on ↦
      let same : (async_context c).0 ≡ counted c c.writer c.next_tag = ground arith in
      subst (Keeps c) (sym same) (counted-Keeps c c.writer c.next_tag o)
  | inr off ↦
      let begun = record c { async = true; tags = some [] } in
      let same : (async_context c).0 ≡ begun = ground arith in
      subst (Keeps c) (sym same) (λ j p h. none_waits c begun j p (o off) h, refl, λ e. absurd (cc))
]

Keeps-trans : (a b c : Client) → Keeps a b → Keeps b c → Keeps a c
Keeps-trans a b c (h, f, o) (h', f', o') = (λ j p e. h' j p (h j p e), f' ∙ f, o')

StartedKeeps-trans : (a b : Client) (r : Started) → Keeps a b → StartedKeeps b r → StartedKeeps a r
StartedKeeps-trans a b blocked h g = tt
StartedKeeps-trans a b (failed c e) h g = Keeps-trans a b c h g
StartedKeeps-trans a b (synchronous c) h g = Keeps-trans a b c h g
StartedKeeps-trans a b (waiting c tag) h g = Keeps-trans a b c h g

pub start_listen-Keeps :
    (k : Link) (c : Client) (sentence : List Text) (stop : Option Bool)
    → IsSound c
    → IsOrderly c
    → StartedKeeps c (start_listen k c sentence stop)
unfolding start_listen
start_listen-Keeps k c sentence stop s o = elim (Bool-cases c.async) [
  | inl on ↦
      by_result c (start_listen k c sentence stop) (listen_started k c sentence stop) (ground arith)
        (listen_started-Keeps k c sentence stop s o)
  | inr off ↦
      let c' = (async_context c).0 in
      let kept = async_context-Keeps c o in
      by_result c (start_listen k c sentence stop) (listen_started k c' sentence stop)
        (ground arith)
        (StartedKeeps-trans c c' (listen_started k c' sentence stop) kept
          (listen_started-Keeps k c' sentence stop (async_context-IsSound c s) kept.2))
]

pub register_cancel-Keeps : (c : Client) → IsSound c → IsOrderly c → Keeps c (register_cancel c).0
unfolding register_cancel
register_cancel-Keeps c s o =
    let tag = cancel_tag_name (c.next_tag + 1) in
    let n = c.next_tag + 1 in
    let new = new_processor run none in
    elim (Option-cases c.tags) [
      | inl t ↦
          let same : (register_cancel c).0 ≡ counted c c.writer n = ground arith in
          subst (Keeps c) (sym same) (counted-Keeps c c.writer n o)
      | inr (tags, t) ↦
          let c' = record c { next_tag = n; tags = some (insert tag new tags) } in
          let same : (register_cancel c).0 ≡ c' = ground arith in
          subst (Keeps c) (sym same)
            (added-Keeps c c.writer n tag new tags o t (next_absent c b'c' tags s t))
    ]

pub send_cancel-Keeps :
    (k : Link) (c c' : Client) (target tag : Text)
    → IsOrderly c
    → send_cancel k target tag c ≡ some c'
    → Keeps c c'
unfolding send_cancel
send_cancel-Keeps k c c' target tag o e = elim (Option-cases (begin_sentence c.writer)) [
  | inl b ↦ absurd (ground arith)
  | inr (w, b) ↦
      let words = text "/cancel" ∷ (text "=tag=" ++ target) ∷ [] in
      let w' = (end_sentence k (tagged k words tag w)).0 in
      let same : counted c w' c.next_tag ≡ c' = ground arith in
      subst (Keeps c) same (counted-Keeps c w' c.next_tag o)
]
