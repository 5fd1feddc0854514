-- ===== src/Mock.antt =====
-- transport/mock/mock.go: the scripted transport. Each method holds the mutex while it touches the
-- fields, so it is one function on them; what a script returns is computed after that.
pub mod Counters
pub mod Seam
mod Examples
use goros.Common.{
  Text, text, ℕ, ◌+◌, Bool, true, false, List, [], ◌∷◌, ◌++◌, length, Option, none, some,
  if◌then◌else◌,
}
use goros.Roserr.{GoError, Result, ok, err, Code, code_capability_unsupported, new_error}
use goros.Transport.{Command, Reply, Capabilities, InspectNode, reply_done}

-- `Call`, by its kind.
pub data Call : Type 0 where
  command_call : Command → Call
  inspect_call : Text → Text → Call
  run_call : Text → Call

pub record MockTransport : Type 0 where
  pub supports : Capabilities
  pub command_fn : Command → Result Reply
  pub inspect_fn : Text → Text → Result (List InspectNode)
  pub run_fn : Text → Result Text
  pub calls : List Call
  pub command_calls : ℕ
  pub inspect_calls : ℕ
  pub run_calls : ℕ
  pub closed : Bool
  pub close_err : Option GoError

abbrev pub empty_done : Reply
empty_done = record { kind = reply_done; attributes = []; tag = []; raw_words = [] }

-- `New`
abbrev pub new_mock : MockTransport
new_mock = record {
  supports = record { structured = true; console = true; inspect = true };
  command_fn = λ cmd. ok empty_done;
  inspect_fn = λ request path. ok [];
  run_fn = λ line. ok [];
  calls = [];
  command_calls = 0;
  inspect_calls = 0;
  run_calls = 0;
  closed = false;
  close_err = none;
}

abbrev pub new_structured : MockTransport
new_structured = record new_mock {
  supports = record { structured = true; console = false; inspect = true };
}

abbrev pub new_console : MockTransport
new_console = record new_mock {
  supports = record { structured = false; console = true; inspect = false };
}

abbrev pub set_command_fn : (Command → Result Reply) → MockTransport → MockTransport
set_command_fn fn t = record t { command_fn = fn }

abbrev pub set_inspect_fn :
    (Text → Text → Result (List InspectNode)) → MockTransport → MockTransport
set_inspect_fn fn t = record t { inspect_fn = fn }

abbrev pub set_run_fn : (Text → Result Text) → MockTransport → MockTransport
set_run_fn fn t = record t { run_fn = fn }

abbrev pub set_close_error : Option GoError → MockTransport → MockTransport
set_close_error e t = record t { close_err = e }

-- `Close`
abbrev pub close_mock : MockTransport → MockTransport × Option GoError
close_mock t = (record t { closed = true }, t.close_err)

abbrev pub unsupported : Text → GoError
unsupported what =
    new_error code_capability_unsupported (text "mock transport does not support " ++ what) []

-- What the script returns, unless the context is done, with its error.
abbrev pub unless_cancelled : {A : Type 0} → Option GoError → Result A → Result A
unless_cancelled none r = r
unless_cancelled (some e) r = err e

-- `Command`, `Inspect` and `Run`; `ctx` is the error of a context that is done.
unfoldable pub mock_command :
    Option GoError → Command → MockTransport → MockTransport × Result Reply
mock_command ctx cmd t =
    if t.supports.structured
    then (
      record t { command_calls = t.command_calls + 1; calls = t.calls ++ (command_call cmd ∷ []) },
      unless_cancelled ctx (t.command_fn cmd),
    )
    else (t, err (unsupported (text "structured commands")))

unfoldable pub mock_inspect :
    Option GoError → Text → Text → MockTransport → MockTransport × Result (List InspectNode)
mock_inspect ctx request path t =
    if t.supports.inspect
    then (
      record t {
        inspect_calls = t.inspect_calls + 1;
        calls = t.calls ++ (inspect_call request path ∷ []);
      },
      unless_cancelled ctx (t.inspect_fn request path),
    )
    else (t, err (unsupported (text "/console/inspect")))

unfoldable pub mock_run : Option GoError → Text → MockTransport → MockTransport × Result Text
mock_run ctx line t =
    if t.supports.console
    then (
      record t { run_calls = t.run_calls + 1; calls = t.calls ++ (run_call line ∷ []) },
      unless_cancelled ctx (t.run_fn line),
    )
    else (t, err (unsupported (text "console lines")))

-- `TotalCalls`
abbrev pub total_calls : MockTransport → ℕ
total_calls t = length t.calls

-- The getters: `Capabilities`, `Closed`, the numbers of calls, and a copy of the calls.
abbrev pub mock_capabilities : MockTransport → Capabilities
mock_capabilities t = t.supports

abbrev pub is_closed : MockTransport → Bool
is_closed t = t.closed

abbrev pub count_command_calls : MockTransport → ℕ
count_command_calls t = t.command_calls

abbrev pub count_inspect_calls : MockTransport → ℕ
count_inspect_calls t = t.inspect_calls

abbrev pub count_run_calls : MockTransport → ℕ
count_run_calls t = t.run_calls

abbrev pub copied_calls : MockTransport → List Call
copied_calls t = t.calls
