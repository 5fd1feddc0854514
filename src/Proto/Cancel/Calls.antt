-- ===== src/Proto/Cancel/Calls.antt =====
-- What sequences and interleavings of `Close` and `Cancel` come to.
use goros.Common.{subst, ℕ, ◌+◌, ◌-◌, Bool, true, false, ◌||◌, List, [], ◌∷◌, ◌≡◌, refl, sym}
use goros.Client.Processor.{Attempt, normal, panic, ◌>>=◌}
use goros.Proto.Cancel.{
  CtxIo, new_ctx_io, close_load, cancel_load, step, call_through, Operation, closes, cancels,
  begins, ends, operate, operate_all, interleave,
}

-- The flag is set exactly when the channel is closed, which is where a `Close` has been.
pub record Agrees (closed : Bool) (c : CtxIo) : Type 0 where
  pub flag : c.close ≡ closed
  pub channel : c.done_closed ≡ closed

abbrev pub is_close : Operation → Bool
is_close closes = true
is_close _ = false

abbrev pub any_close : Bool → List Operation → Bool
any_close closed [] = closed
any_close closed (o ∷ os) = any_close (closed || is_close o) os

abbrev pub Ends : Bool → Attempt CtxIo → Type 0
Ends closed panic = ⊥
Ends closed (normal c) = Agrees closed c

-- All that such a state can be.
abbrev pub state : Bool → ℕ → CtxIo
state closed waiting = record { close = closed; done_closed = closed; waiting = waiting }

Agrees-state : (closed : Bool) (c : CtxIo) → Agrees closed c → c ≡ state closed c.waiting
Agrees-state closed c a = cc (a.flag, a.channel)

agrees : (closed : Bool) (waiting : ℕ) → Agrees closed (state closed waiting)
agrees closed waiting = record { flag = refl; channel = refl }

operate-state :
    (o : Operation) (closed : Bool) (waiting : ℕ)
    → Ends (closed || is_close o) (operate o (state closed waiting))
unfolding operate call_through step
operate-state closes true waiting = agrees true waiting
operate-state closes false waiting = agrees true 0
operate-state cancels true waiting = agrees true waiting
operate-state cancels false waiting = agrees false (waiting - 1)
operate-state begins true waiting = agrees true waiting
operate-state begins false waiting = agrees false (waiting + 1)
operate-state ends true waiting = agrees true (waiting - 1)
operate-state ends false waiting = agrees false (waiting - 1)

operate-Ends :
    (o : Operation) (closed : Bool) (c : CtxIo)
    → Agrees closed c
    → Ends (closed || is_close o) (operate o c)
operate-Ends o closed c a =
    subst (λ s. Ends (closed || is_close o) (operate o s)) (sym (Agrees-state closed c a))
      (operate-state o closed c.waiting)

more-Ends :
    (os : List Operation) (closed : Bool) (r : Attempt CtxIo)
    → Ends closed r
    → ((c : CtxIo) → Agrees closed c → Ends (any_close closed os) (operate_all os c))
    → Ends (any_close closed os) (r >>= operate_all os)
more-Ends os closed panic h k = absurd h
more-Ends os closed (normal c) h k = k c h

operate_all-from :
    (os : List Operation) (closed : Bool) (c : CtxIo)
    → Agrees closed c
    → Ends (any_close closed os) (operate_all os c)
unfolding operate_all
operate_all-from [] closed c a = a
operate_all-from (o ∷ os) closed c a =
    more-Ends os (closed || is_close o) (operate o c) (operate-Ends o closed c a)
      (operate_all-from os (closed || is_close o))

-- Calls that come one after another never panic, however many of them close or cancel; after them the
-- flag is set and the channel closed if one of them was a `Close`, and neither if none was.
pub operate_all-Ends : (os : List Operation) → Ends (any_close false os) (operate_all os new_ctx_io)
operate_all-Ends os = operate_all-from os false new_ctx_io (agrees false 0)

-- A cancellation while no `Read` waits changes nothing: the next `Read` waits as if there was none.
pub cancels_lost :
    (os : List Operation)
    → operate_all (cancels ∷ os) (state false 0) ≡ operate_all os (state false 0)
unfolding operate_all operate call_through step
cancels_lost os = refl

-- A `Cancel` that has seen the flag unset, and sends after a whole `Close`, panics.
pub interleave_panics :
    (waiting : ℕ)
    → interleave
        (true ∷ false ∷ false ∷ false ∷ true ∷ [])
        cancel_load
        close_load
        (state false waiting)
      ≡ panic
unfolding interleave step
interleave_panics waiting = refl
