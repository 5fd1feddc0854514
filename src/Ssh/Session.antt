-- ===== src/Ssh/Session.antt =====
-- The methods of `Client` of transport/ssh/ssh.go: `Run`, `Capabilities`, `Close`, `Validate`.
pub mod Laws
pub mod Gate
use goros.Common.{
  Text, text, ℕ, Bool, true, false, List, [], ◌∷◌, Option, none, some, if◌then◌else◌, is_empty,
  trim_space,
}
use goros.Roserr.{
  GoError, Result, ok, err, deadline_exceeded, code_timeout, code_command_failed, new_error,
  with_context, with_cause,
}
use goros.Roserr.Render.{Formats}
use goros.Transport.{Command, Capabilities}
use goros.Gate.Syntax.{validate_console}
use goros.Ssh.Output.{clean_console_output}
use goros.Ssh.HostKeys.{ssh_context}
use goros.Ssh.Errors.{map_ssh_error}
use goros.Ssh.Dial.{SshClient}

-- An error of `sess.Output`: an `*ssh.ExitError` or one that wraps it, or any other.
pub data OutputError : Type 0 where
  exited failed : GoError → OutputError

-- What the select meets: the context is done, with its error, or the command has ended.
pub data Waited : Type 0 where
  ctx_done : GoError → Waited
  output : Text → Option OutputError → Waited

-- One call's surroundings: `ctx.Err()` at its start, `NewSession`, and the select for a line.
pub record Call (Conn : Type 0) : Type 0 where
  pub formats : Formats
  pub ctx : Option GoError
  pub new_session : Conn → Option GoError
  pub waited : Conn → Text → Waited

-- What a method returns; on a nil connection it panics.
pub data Returned (A : Type 0) : Type 0 where
  panicked : Returned A
  returned : A → Returned A

-- The output and the error.
abbrev pub Ran : Type 0
Ran = Text × Option GoError

abbrev pub timed_out : Text → ℕ → GoError → GoError
timed_out host port e =
    new_error code_timeout (text "command timed out")
      (with_cause e ∷ with_context (ssh_context host port) ∷ [])

abbrev pub no_output : Text → ℕ → GoError → GoError
no_output host port e =
    new_error code_command_failed (text "device exited without console output")
      (with_cause e ∷ with_context (ssh_context host port) ∷ [])

-- `ctx.Err() == context.DeadlineExceeded`
abbrev pub ctx_error : Text → ℕ → GoError → GoError
ctx_error host port deadline_exceeded = timed_out host port deadline_exceeded
ctx_error host port e = e

abbrev pub cleaned : Formats → Text → ℕ → Text → Option OutputError → Ran
cleaned f host port out none = (out, none)
cleaned f host port out (some (exited e)) =
    if is_empty (trim_space out) then ([], some (no_output host port e)) else (out, none)
cleaned f host port out (some (failed e)) = (out, some (map_ssh_error f e host port (text "run")))

abbrev pub select : Formats → Text → ℕ → Waited → Ran
select f host port (ctx_done e) = ([], some (ctx_error host port e))
select f host port (output raw e) = cleaned f host port (clean_console_output raw) e

-- A context that is done is seen before the connection.
abbrev run_closed : Option GoError → Returned Ran
run_closed none = panicked
run_closed (some e) = returned ([], some e)

module _ {Conn : Type 0} where
  abbrev pub in_session : Call Conn → SshClient Conn → Text → Conn → Option GoError → Ran
  in_session w c line conn none = select w.formats c.host c.port (w.waited conn line)
  in_session w c line conn (some e) =
      ([], some (map_ssh_error w.formats e c.host c.port (text "open-session")))

  abbrev pub unless_done : Call Conn → SshClient Conn → Text → Conn → Option GoError → Ran
  unless_done w c line conn none = in_session w c line conn (w.new_session conn)
  unless_done w c line conn (some e) = ([], some e)

  -- `Run` on the connection of the client.
  unfoldable pub run_open : Call Conn → SshClient Conn → Text → Conn → Ran
  run_open w c line conn = unless_done w c line conn w.ctx

  -- `Run`
  unfoldable pub run : Call Conn → SshClient Conn → Text → Returned Ran
  run w c line = elim c.conn [
    | none ↦ run_closed w.ctx
    | some conn ↦ returned (run_open w c line conn)
  ]

  -- `Capabilities`
  abbrev pub capabilities : SshClient Conn → Capabilities
  capabilities c = record { structured = false; console = true; inspect = false }

  abbrev pub close_on :
      (Conn → Conn × Option GoError)
      → SshClient Conn
      → Option Conn
      → SshClient Conn × Option GoError
  close_on close_conn c none = (c, none)
  close_on close_conn c (some conn) =
      let (closed, e) = close_conn conn in (record c { conn = some closed }, e)

  -- `Close`, where `close_conn` is the connection's own `Close`.
  unfoldable pub close :
      (Conn → Conn × Option GoError) → SshClient Conn → SshClient Conn × Option GoError
  close close_conn c = close_on close_conn c c.conn

-- What a caller takes that reads the output only where there is no error.
abbrev pub as_result : Ran → Result Text
as_result (out, none) = ok out
as_result (out, some e) = err e

module _ {Conn : Type 0} where
  -- `Validate` over the connection of the client. The surroundings of a call may depend on the
  -- commands before.
  unfoldable pub validate_line :
      (List Command → Call Conn)
      → SshClient Conn
      → Conn
      → Text
      → List Command
      → List Command × Option GoError
  validate_line w c conn line calls =
      validate_console (λ before l. as_result (run_open (w before) c l conn)) line calls
