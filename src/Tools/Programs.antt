-- ===== src/Tools/Programs.antt =====
-- examples/run and examples/listen: the clients' calls, and how the programs end. Goroutines of a program
-- are functions of their own, and a `select` takes one of its events after another.
use goros.Common.{Text, text, Bool, true, false, List, [], ◌∷◌, Option, none, some, if◌then◌else◌}
use goros.Roserr.{GoError, Result, ok, err}
use goros.Proto.Sentence.{Sentence}
use goros.Client.Reply.{Reply}
use goros.Client.Sync.{Outcome}
use goros.Tools.{split, Ending, returns, exits, panics}

-- The flags of the two programs that choose what they do.
pub record Flags : Type 0 where
  pub command_flag : Text
  pub async : Bool
  pub use_tls : Bool

-- What the dialers would return.
pub record Dialers {ℓ} (C : Type ℓ) : Type ℓ where
  pub dial_tls : Result C
  pub dial_plain : Result C

-- `dial` of both programs.
abbrev pub dial_client {ℓ} : {C : Type ℓ} → Flags → Dialers C → Result C
dial_client flags d = if flags.use_tls then d.dial_tls else d.dial_plain

abbrev pub command_words : Flags → List Text
command_words flags = split b' ' flags.command_flag

abbrev reported : Outcome → Option Reply × Ending
reported (r, some e) = (none, exits 2 (text "could not run args") e)
reported (r, none) = (r, returns)

module _ {ℓ} {C : Type ℓ} where
  -- `main` of examples/run, with `Async` and `RunArgs` of the client; the reply is what it logs.
  abbrev run_on : Flags → (C → C) → (C → List Text → Outcome) → Result C → Option Reply × Ending
  run_on flags start_async run_args (err e) = (none, exits 2 (text "could not connect") e)
  run_on flags start_async run_args (ok c) =
      reported (run_args (if flags.async then start_async c else c) (command_words flags))

  unfoldable pub run_main :
      Flags → Dialers C → (C → C) → (C → List Text → Outcome) → Option Reply × Ending
  run_main flags d start_async run_args = run_on flags start_async run_args (dial_client flags d)

-- What a `select` over the context and a listener's channel takes.
pub data Event : Type 0 where
  context_done : Event
  row : Sentence → Event
  channel_closed : Event

-- The end of a listener, by its error.
abbrev pub listened : Option GoError → Ending
listened none = returns
listened (some e) = exits 2 (text "received an error") e

-- The loop of `implicitAsync` over the events: the rows it logs, and whether it has left the loop.
unfoldable pub implicit_loop : List Event → List Sentence × Bool
implicit_loop [] = ([], false)
implicit_loop (context_done ∷ events) = ([], true)
implicit_loop (channel_closed ∷ events) = ([], true)
implicit_loop (row sen ∷ events) = let (rows, left) = implicit_loop events in (sen ∷ rows, left)

-- `implicitAsync`, by the result of `ListenArgsContext` and what `Err` returns behind the loop; `none`
-- while it loops.
unfoldable pub implicit_async :
    Option GoError → List Event → Option GoError → List Sentence × Option Ending
unfolding implicit_loop
implicit_async (some e) events error = ([], some (exits 2 (text "could not listen") e))
implicit_async none events error =
    let (rows, left) = implicit_loop events in (rows, if left then some (listened error) else none)

-- The goroutine of `explicitAsync` that ranges over the channel, which ends when that is closed.
unfoldable pub range_rows : List Event → List Sentence × Bool
range_rows [] = ([], false)
range_rows (channel_closed ∷ events) = ([], true)
range_rows (context_done ∷ events) = range_rows events
range_rows (row sen ∷ events) = let (rows, closed) = range_rows events in (sen ∷ rows, closed)

unfoldable pub explicit_listener :
    Option GoError → List Event → Option GoError → List Sentence × Option Ending
unfolding range_rows
explicit_listener (some e) events error = ([], some (exits 2 (text "could not listen") e))
explicit_listener none events error =
    let (rows, closed) = range_rows events in (rows, if closed then some (listened error) else none)

-- The `select` at the end of `explicitAsync`: `none` where the context was done first, and else what
-- came from the channel of `Async`, if anything.
abbrev pub explicit_wait : Option (Option GoError) → Ending
explicit_wait none = returns
explicit_wait (some error) = listened error

-- The goroutine that cancels a listener after the timeout, in both modes.
abbrev pub cancelled : Text → Outcome → Ending
cancelled message (r, some e) = exits 2 message e
cancelled message (r, none) = returns

-- The end of `main` of examples/listen, by how the mode has ended and the result of `Close`.
abbrev pub close_after : Ending → Option GoError → Ending
close_after returns none = returns
close_after returns (some e) = exits 2 (text "could not close client") e
close_after (exits status message e) closed = exits status message e
close_after panics closed = panics

module _ {ℓ} {C : Type ℓ} where
  abbrev listen_on : Flags → (C → Ending) → (C → Ending) → (C → Option GoError) → Result C → Ending
  listen_on flags explicit implicit close (err e) = exits 2 (text "could not dial") e
  listen_on flags explicit implicit close (ok c) =
      close_after (if flags.async then explicit c else implicit c) (close c)

  -- `main` of examples/listen, over how its two modes end and what the first `Close` returns; the
  -- deferred one only logs.
  unfoldable pub listen_main :
      Flags → Dialers C → (C → Ending) → (C → Ending) → (C → Option GoError) → Ending
  listen_main flags d explicit implicit close =
      listen_on flags explicit implicit close (dial_client flags d)
