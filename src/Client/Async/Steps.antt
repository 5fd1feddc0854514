-- ===== src/Client/Async/Steps.antt =====
-- Every history of steps keeps the invariant, so no step of any history panics.
use goros.Common.{Text, Bool, false, List, Option, none, some, ◌≡◌, ◌≢◌, subst, ◌⊎◌}
use goros.Roserr.{GoError}
use goros.Proto.Sentence.{Sentence}
use goros.Proto.Writer.{Writer, Link}
use goros.Client.Processor.{Attempt, normal, panic}
use goros.Client.Async.{
  Client, new_client, deliver, close_tags, close_client, async_context, failed, synchronous,
  waiting, start_run, start_listen, register_cancel, send_cancel,
}
use goros.Client.Async.Sound.{IsSound, StaysSound, deliver-IsSound, close_tags-IsSound}
use goros.Client.Async.Calls.Tags.{other_writer-IsSound}
use goros.Client.Async.Calls.{
  StartedSound, start_run-IsSound, async_context-IsSound, start_listen-IsSound,
  register_cancel-IsSound, send_cancel-IsSound,
}

-- The steps that the goroutines of a client take on its receivers, in any order. A call that waits for good
-- takes none. `closes` is the flag `closing` of `Close`; the channels of the reader and the writer, on which
-- `Close` and `Cancel` meet, are in `Client.Life` and `Proto.Cancel`.
pub data Step (k : Link) (c c' : Client) : Type 0 where
  begins : (async_context c).0 ≡ c' → Step k c c'
  runs :
      (sentences : List Text) (tag : Text) → start_run k c sentences ≡ waiting c' tag → Step k c c'
  run_fails :
      (sentences : List Text) (e : GoError) → start_run k c sentences ≡ failed c' e → Step k c c'
  runs_synchronously :
      (sentences : List Text) → start_run k c sentences ≡ synchronous c' → Step k c c'
  listens :
      (sentence : List Text) (stop : Option Bool) (tag : Text)
      → (stop ≡ none) ⊎ (stop ≡ some false)
      → start_listen k c sentence stop ≡ waiting c' tag
      → Step k c c'
  listen_fails :
      (sentence : List Text) (stop : Option Bool) (e : GoError)
      → (stop ≡ none) ⊎ (stop ≡ some false)
      → start_listen k c sentence stop ≡ failed c' e
      → Step k c c'
  cancels : (register_cancel c).0 ≡ c' → Step k c c'
  sends_cancel : (target tag : Text) → send_cancel k target tag c ≡ some c' → Step k c c'
  receives : (sen : Sentence) → deliver c sen ≡ normal c' → Step k c c'
  ends : (e : GoError) → close_tags e c ≡ normal c' → Step k c c'
  closes : close_client c ≡ c' → Step k c c'
  frees : (w : Writer) → record c { writer = w } ≡ c' → Step k c c'

pub data Reach (k : Link) (c : Client) : Client → Type 0 where
  here : Reach k c c
  next : {d e : Client} → Reach k c d → Step k d e → Reach k c e

pub Step-IsSound : (k : Link) (c c' : Client) → Step k c c' → IsSound c → IsSound c'
Step-IsSound k c c' (begins e) s = subst IsSound e (async_context-IsSound c s)
Step-IsSound k c c' (runs sentences tag e) s =
    subst StartedSound e (start_run-IsSound k c sentences s)
Step-IsSound k c c' (run_fails sentences x e) s =
    subst StartedSound e (start_run-IsSound k c sentences s)
Step-IsSound k c c' (runs_synchronously sentences e) s =
    subst StartedSound e (start_run-IsSound k c sentences s)
Step-IsSound k c c' (listens sentence stop tag fits e) s =
    subst StartedSound e (start_listen-IsSound k c sentence stop s fits)
Step-IsSound k c c' (listen_fails sentence stop x fits e) s =
    subst StartedSound e (start_listen-IsSound k c sentence stop s fits)
Step-IsSound k c c' (cancels e) s = subst IsSound e (register_cancel-IsSound c s)
Step-IsSound k c c' (sends_cancel target tag e) s = send_cancel-IsSound k c c' target tag s e
Step-IsSound k c c' (receives sen e) s = subst StaysSound e (deliver-IsSound c sen s)
Step-IsSound k c c' (ends x e) s = subst StaysSound e (close_tags-IsSound c x s)
Step-IsSound k c c' (closes e) s =
    unfold close_client in
    subst IsSound e (record { open_receivers = s.open_receivers; issued_tags = s.issued_tags })
Step-IsSound k c c' (frees w e) s = subst IsSound e (other_writer-IsSound c w s)

pub new_client-IsSound : IsSound new_client
new_client-IsSound = record { open_receivers = tt; issued_tags = tt }

pub Reach-IsSound : (k : Link) (c d : Client) → IsSound c → Reach k c d → IsSound d
Reach-IsSound k c d s here = s
Reach-IsSound k c d s (next {d = b} r st) = Step-IsSound k b d st (Reach-IsSound k c b s r)

not-panic : (r : Attempt Client) → StaysSound r → r ≢ panic
not-panic r s e = subst StaysSound e s

-- In every history of a client, whatever its connection does and in whatever order its calls, the
-- sentences it reads, cancellations, the end of the loop and the setting of `closing` come, the loop
-- closes no channel of a receiver (`reC` and `stop`) twice and sends on none after it was closed:
-- neither the next sentence nor the end of the loop panics.
pub Reach-ne-panic :
    (k : Link) (c : Client) (sen : Sentence) (e : GoError)
    → Reach k new_client c
    → (deliver c sen ≢ panic) × (close_tags e c ≢ panic)
Reach-ne-panic k c sen e r =
    let s = Reach-IsSound k new_client c new_client-IsSound r in
    (
      not-panic (deliver c sen) (deliver-IsSound c sen s),
      not-panic (close_tags e c) (close_tags-IsSound c e s),
    )
