-- ===== src/Client/Entry.antt =====
-- The convenience functions of client.go, run.go and listen.go, each of which chooses the context and the
-- arguments of another.
use goros.Common.{ℕ, Text, text, Bool, false, List, [], ◌∷◌, ◌++◌, Option, none, some}
use goros.Roserr.{GoError, Result}
use goros.Roserr.Render.{Formats}
use goros.Client.Processor.{Processor}
use goros.Client.Login.{Wire, Digest, Dialed, dial_context}
use goros.Client.Async.{Client, Started, start_run, start_listen}
use goros.Proto.Writer.{Link}

-- A context: the background context, one with a timeout, or any other, by a number of its own.
pub data Ctx : Type 0 where
  background : Ctx
  timeout : ℕ → Ctx
  given : ℕ → Ctx

-- The two dialers, by the context and the address; the second has a TLS configuration.
pub record Connectors (Conn Config : Type 0) : Type 0 where
  pub tcp : Ctx → Text → Result Conn
  pub tls : Config → Ctx → Text → Result Conn

module _ {Conn Config : Type 0} (f : Formats) (d : Digest) (wire : Conn → Wire)
    (close_conn : Conn → Option GoError) (dialer : Connectors Conn Config) where
  -- `DialContext` and `DialTLSContext`
  abbrev pub dial_tcp_context : Ctx → Text → Text → Text → Dialed Conn
  dial_tcp_context ctx address username password =
      dial_context f d wire close_conn (dialer.tcp ctx address) username password

  abbrev pub dial_tls_context : Config → Ctx → Text → Text → Text → Dialed Conn
  dial_tls_context config ctx address username password =
      dial_context f d wire close_conn (dialer.tls config ctx address) username password

  -- `Dial`, `DialTimeout`, `DialTLS` and `DialTLSTimeout`
  abbrev pub dial_background : Text → Text → Text → Dialed Conn
  dial_background address username password = dial_tcp_context background address username password

  abbrev pub dial_within : ℕ → Text → Text → Text → Dialed Conn
  dial_within after address username password =
      dial_tcp_context (timeout after) address username password

  abbrev pub dial_tls_background : Config → Text → Text → Text → Dialed Conn
  dial_tls_background config address username password =
      dial_tls_context config background address username password

  abbrev pub dial_tls_timeout : Config → ℕ → Text → Text → Text → Dialed Conn
  dial_tls_timeout config after address username password =
      dial_tls_context config (timeout after) address username password

-- `IsAsync`
abbrev pub is_async : Client → Bool
is_async c = c.async

-- Whether a listener gets a channel that stops the goroutine that waits for its context.
abbrev pub stop_of : Ctx → Option Bool
stop_of background = none
stop_of (timeout after) = some false
stop_of (given n) = some false

-- The words of `Cancel` and `CancelContext` of a listener.
abbrev pub cancel_words : Text → List Text
cancel_words tag = text "/cancel" ∷ (text "=tag=" ++ tag) ∷ []

module _ (k : Link) (c : Client) where
  -- `RunArgs`, `Run` and `RunContext` are `RunArgsContext`, whose context counts only while it waits.
  abbrev pub run_args_context : Ctx → List Text → Started
  run_args_context ctx sentences = start_run k c sentences

  abbrev pub run_background : List Text → Started
  run_background sentences = run_args_context background sentences

  -- `ListenArgsQueueContext`, whose queue size is not modelled, and `Listen`, `ListenArgs` and
  -- `ListenArgsQueue`.
  abbrev pub listen_context : Ctx → List Text → Started
  listen_context ctx sentence = start_listen k c sentence (stop_of ctx)

  abbrev pub listen_background : List Text → Started
  listen_background sentence = listen_context background sentence

  -- These two calls.
  abbrev pub cancel_listener : Ctx → Text → Started
  cancel_listener ctx tag = run_args_context ctx (cancel_words tag)

-- `Err` of a listener.
abbrev pub listener_err : Processor → Option GoError
listener_err p = p.err
