-- ===== src/Client/Async/Progress.antt =====
-- That no step of a client loses a receiver.
use goros.Common.{Text, some, ◌≡◌, refl, sym, subst, ◌∙◌, inl, inr}
use goros.Proto.Writer.{Link}
use goros.Client.Processor.{Processor}
use goros.Client.Async.{Client, new_client, close_client}
use goros.Client.Async.Sound.{IsSound}
use goros.Client.Async.Calls.{pending}
use goros.Client.Async.Steps.{
  Step, begins, runs, run_fails, runs_synchronously, listens, listen_fails, cancels, sends_cancel,
  receives, ends, closes, frees, Reach, here, next, Reach-IsSound, new_client-IsSound,
}
use goros.Client.Async.Kept.{IsOrderly, Keeps, StartedKeeps, start_run-Keeps}
use goros.Client.Async.Kept.Listens.{
  start_listen-Keeps, async_context-Keeps, register_cancel-Keeps, send_cancel-Keeps,
}
use goros.Client.Async.Grows.{Grows-refl}
use goros.Client.Async.Held.{
  Held, Advances, Keeps-Advances, deliver-Advances, close_tags-Ends, same_client,
}

-- A step of another goroutine than the loop's.
abbrev pub IsQuiet : (k : Link) (c c' : Client) → Step k c c' → Type 0
IsQuiet k c c' (begins e) = Unit
IsQuiet k c c' (runs sentences tag e) = Unit
IsQuiet k c c' (run_fails sentences x e) = Unit
IsQuiet k c c' (runs_synchronously sentences e) = Unit
IsQuiet k c c' (listens sentence stop tag fits e) = Unit
IsQuiet k c c' (listen_fails sentence stop x fits e) = Unit
IsQuiet k c c' (cancels e) = Unit
IsQuiet k c c' (sends_cancel target tag e) = Unit
IsQuiet k c c' (receives sen e) = ⊥
IsQuiet k c c' (ends x e) = ⊥
IsQuiet k c c' (closes e) = Unit
IsQuiet k c c' (frees w e) = Unit

-- Such a step leaves whoever waits alone.
pub Step-Keeps :
    (k : Link) (c c' : Client) (st : Step k c c')
    → IsQuiet k c c' st
    → IsSound c
    → IsOrderly c
    → Keeps c c'
Step-Keeps k c c' (begins e) q s o = subst (Keeps c) e (async_context-Keeps c o)
Step-Keeps k c c' (runs sentences tag e) q s o =
    subst (StartedKeeps c) e (start_run-Keeps k c sentences s o)
Step-Keeps k c c' (run_fails sentences x e) q s o =
    subst (StartedKeeps c) e (start_run-Keeps k c sentences s o)
Step-Keeps k c c' (runs_synchronously sentences e) q s o =
    subst (StartedKeeps c) e (start_run-Keeps k c sentences s o)
Step-Keeps k c c' (listens sentence stop tag fits e) q s o =
    subst (StartedKeeps c) e (start_listen-Keeps k c sentence stop s o)
Step-Keeps k c c' (listen_fails sentence stop x fits e) q s o =
    subst (StartedKeeps c) e (start_listen-Keeps k c sentence stop s o)
Step-Keeps k c c' (cancels e) q s o = subst (Keeps c) e (register_cancel-Keeps c s o)
Step-Keeps k c c' (sends_cancel target tag e) q s o = send_cancel-Keeps k c c' target tag o e
Step-Keeps k c c' (receives sen e) q s o = absurd q
Step-Keeps k c c' (ends x e) q s o = absurd q
Step-Keeps k c c' (closes e) q s o = unfold close_client in subst (Keeps c) e (λ j p h. h, refl, o)
Step-Keeps k c c' (frees w e) q s o = subst (Keeps c) e (λ j p h. h, refl, o)

Step-Advances : (k : Link) (c c' : Client) → Step k c c' → IsSound c → IsOrderly c → Advances c c'
Step-Advances k c c' (receives sen e) s o = deliver-Advances c c' sen o e
Step-Advances k c c' (ends x e) s o =
    let (c2, closed, gone, kept, carried) = close_tags-Ends c x s in
    subst (Advances c) (same_client c2 c' (sym closed ∙ e))
      (λ j p h. inr (kept j p h), λ _. gone, carried)
Step-Advances k c c' (begins e) s o = Keeps-Advances c c' (Step-Keeps k c c' (begins e) tt s o)
Step-Advances k c c' (runs sentences tag e) s o =
    Keeps-Advances c c' (Step-Keeps k c c' (runs sentences tag e) tt s o)
Step-Advances k c c' (run_fails sentences x e) s o =
    Keeps-Advances c c' (Step-Keeps k c c' (run_fails sentences x e) tt s o)
Step-Advances k c c' (runs_synchronously sentences e) s o =
    Keeps-Advances c c' (Step-Keeps k c c' (runs_synchronously sentences e) tt s o)
Step-Advances k c c' (listens sentence stop tag fits e) s o =
    Keeps-Advances c c' (Step-Keeps k c c' (listens sentence stop tag fits e) tt s o)
Step-Advances k c c' (listen_fails sentence stop x fits e) s o =
    Keeps-Advances c c' (Step-Keeps k c c' (listen_fails sentence stop x fits e) tt s o)
Step-Advances k c c' (cancels e) s o = Keeps-Advances c c' (Step-Keeps k c c' (cancels e) tt s o)
Step-Advances k c c' (sends_cancel target tag e) s o =
    Keeps-Advances c c' (Step-Keeps k c c' (sends_cancel target tag e) tt s o)
Step-Advances k c c' (closes e) s o = Keeps-Advances c c' (Step-Keeps k c c' (closes e) tt s o)
Step-Advances k c c' (frees w e) s o = Keeps-Advances c c' (Step-Keeps k c c' (frees w e) tt s o)

pub new_client-IsOrderly : IsOrderly new_client
new_client-IsOrderly off = refl

-- In every history of a client nobody who waits is forgotten: a receiver that was registered is still
-- registered, or it was closed.
pub Reach-Advances :
    (k : Link) (c d : Client) → IsSound c → IsOrderly c → Reach k c d → Advances c d
Reach-Advances k c d s o here = (λ j p h. h, o, λ x m. m)
Reach-Advances k c d s o (next {d = b} r st) =
    let (kept, o', carried) = Reach-Advances k c b s o r in
    let (kept', o'', carried') = Step-Advances k b d st (Reach-IsSound k c b s r) o' in
    (λ j p h. kept' j p (kept j p h), o'', λ x m. carried' x (carried x m))

-- In every history of a client no receiver is lost: from the moment it is registered, the receiver
-- stays under its tag until its channel is closed, and none takes its place: it is of the same kind and
-- has got all that it had got before, whatever calls, sentences, cancellations and errors come in
-- between, and in whatever order.
pub Reach-Held :
    (k : Link) (c d : Client) (tag : Text) (p : Processor)
    → Reach k new_client c
    → pending c tag ≡ some p
    → Reach k c d
    → Held tag p d
Reach-Held k c d tag p r w more =
    let s = Reach-IsSound k new_client c new_client-IsSound r in
    let o = (Reach-Advances k new_client c new_client-IsSound new_client-IsOrderly r).1 in
    (Reach-Advances k c d s o more).0 tag p (inl (p, w, Grows-refl p))
