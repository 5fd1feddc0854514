-- ===== src/Client/Life.antt =====
-- `NewClient` and `Close` of client.go, with the reader's and the writer's channels. The mutex of the
-- client makes a `Close` one step.
pub mod Laws
mod Examples
use goros.Common.{ℕ, zero, suc, ◌+◌, Bool, true, false, Option, none, some, if◌then◌else◌}
use goros.Roserr.{GoError}
use goros.Proto.Cancel.{CtxIo, new_ctx_io, operate, closes}
use goros.Client.Processor.{Attempt, normal, ◌>>=◌}

-- `rwc_closes` is how often the connection has been closed.
pub record Life : Type 0 where
  pub reader : CtxIo
  pub writer : CtxIo
  pub closing : Bool
  pub rwc_closes : ℕ

abbrev pub new_life : Life
new_life = record { reader = new_ctx_io; writer = new_ctx_io; closing = false; rwc_closes = 0 }

-- `closing` and the connection, once the reader and the writer are closed.
abbrev pub close_rwc : Option GoError → Life → Life × Option GoError
close_rwc e l =
    if l.closing then (l, none) else (record l { closing = true; rwc_closes = l.rwc_closes + 1 }, e)

-- `Close`, where `e` is what the connection's own `Close` returns.
unfoldable pub close_life : Option GoError → Life → Attempt (Life × Option GoError)
close_life e l = operate closes l.reader >>= λ r.
    operate closes l.writer >>= λ w. normal (close_rwc e (record l { reader = r; writer = w }))

-- So many calls, and what the last one returns.
unfoldable pub close_times :
    ℕ → Option GoError → Life × Option GoError → Attempt (Life × Option GoError)
close_times zero e (l, last) = normal (l, last)
close_times (suc n) e (l, last) = close_life e l >>= close_times n e
