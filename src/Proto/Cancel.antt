-- ===== src/Proto/Cancel.antt =====
-- `ctxReader` and `ctxWriter` of proto/io_context.go: `Close` and `Cancel` of the two are the same, and
-- so is the select of `Read` and of `Write`. A call takes one atomic step after another; calls of
-- different goroutines interleave between them.
pub mod Calls
pub mod Transfer
use goros.Common.{
  ℕ, ◌+◌, ◌-◌, zero, suc, Bool, true, false, List, [], ◌∷◌, Option, none, some, if◌then◌else◌,
}
use goros.Roserr.{GoError, eof}
use goros.Client.Processor.{Attempt, normal, panic, ◌>>=◌}

-- `close` is the atomic flag, `done_closed` whether the channel `done` is closed, and `waiting` how many
-- selects of a `Read` or a `Write` wait on it.
pub record CtxIo : Type 0 where
  pub close : Bool
  pub done_closed : Bool
  pub waiting : ℕ

abbrev pub new_ctx_io : CtxIo
new_ctx_io = record { close = false; done_closed = false; waiting = 0 }

-- Where a call of `Close` or of `Cancel` stands.
pub data Pc : Type 0 where
  close_load close_store close_done : Pc
  cancel_load cancel_send : Pc
  returned : Pc

-- Closing a closed channel is a panic, and so is a send on one, also under a select with a default.
unfoldable pub step : Pc → CtxIo → Attempt (Pc × CtxIo)
step close_load c = normal ((if c.close then returned else close_store), c)
step close_store c = normal (close_done, record c { close = true })
step close_done c =
    if c.done_closed then panic else normal (returned, record c { done_closed = true; waiting = 0 })
step cancel_load c = normal ((if c.close then returned else cancel_send), c)
step cancel_send c =
    if c.done_closed then panic else normal (returned, record c { waiting = c.waiting - 1 })
step returned c = normal (returned, c)

-- A whole call, three steps at most.
unfoldable pub call_through : ℕ → Pc → CtxIo → Attempt CtxIo
call_through zero pc c = normal c
call_through (suc n) pc c = step pc c >>= λ (pc', c'). call_through n pc' c'

-- `Read` and `Write` up to their select, and from it where the call below them has come back first.
abbrev pub begin_io : CtxIo → CtxIo
begin_io c = if c.done_closed then c else record c { waiting = c.waiting + 1 }

abbrev pub end_io : CtxIo → CtxIo
end_io c = record c { waiting = c.waiting - 1 }

-- What `Read` and `Write` return: the results of the call below, or `io.EOF` where `done` was first.
abbrev pub io_result : Option (ℕ × Option GoError) → ℕ × Option GoError
io_result none = (0, some eof)
io_result (some r) = r

-- The calls of a client that makes one after another.
pub data Operation : Type 0 where
  closes cancels begins ends : Operation

unfoldable pub operate : Operation → CtxIo → Attempt CtxIo
operate closes c = call_through 3 close_load c
operate cancels c = call_through 2 cancel_load c
operate begins c = normal (begin_io c)
operate ends c = normal (end_io c)

unfoldable pub operate_all : List Operation → CtxIo → Attempt CtxIo
operate_all [] c = normal c
operate_all (o ∷ os) c = operate o c >>= operate_all os

-- Two goroutines: each entry of a schedule lets the first or the second take its next step.
unfoldable pub interleave : List Bool → Pc → Pc → CtxIo → Attempt (Pc × (Pc × CtxIo))
interleave [] p q c = normal (p, (q, c))
interleave (true ∷ turns) p q c = step p c >>= λ (p', c'). interleave turns p' q c'
interleave (false ∷ turns) p q c = step q c >>= λ (q', c'). interleave turns p q' c'
