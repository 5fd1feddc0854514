-- ===== src/Session.antt =====
-- client_transport.go: the canonical transport over the client, and the capabilities of a session. What
-- `RunArgsContext` returns for a sentence, after the sentences that the session has sent, is a `Wire`.
pub mod Probes
pub mod Adapter
mod Examples
use goros.Common.{
  ℕ, ◌+◌, Text, text, text_eq, Bool, true, false, not, ◌&&◌, List, [], ◌∷◌, ◌++◌, Option, none,
  some, if◌then◌else◌, is_empty,
}
use goros.Common.Assoc.{get_or_empty}
use goros.Roserr.{GoError, Result, ok, err, code_command_failed, with_context, new_error}
use goros.Roserr.Chain.{as_device}
use goros.Proto.Sentence.{Sentence}
use goros.Client.Reply as Legacy
use goros.Client.Translate.{native_context, translate_error, translate_reply}
use goros.Transport.{
  Reply, ret, reply_re, Command, script_command, words, InspectNode, inspect_child,
}

-- The results of `RunArgsContext`; `List` drops the reply where there is an error.
abbrev pub Wire : Type 0
Wire = List (List Text) → List Text → Result Legacy.Reply

-- The fields of `runState` but the pipeline and the clocks, with the sentences sent so far.
pub record Session : Type 0 where
  pub sent : List (List Text)
  pub inspect_probed : Bool
  pub supports_inspect : Bool
  pub parse_probed : Bool
  pub supports_parse : Bool
  pub inspect_trips : ℕ

abbrev pub new_session : Session
new_session = record {
  sent = [];
  inspect_probed = false;
  supports_inspect = false;
  parse_probed = false;
  supports_parse = false;
  inspect_trips = 0;
}

-- The last reply, or the error that there is none.
abbrev pub last_reply : List Reply → Result Reply
last_reply [] = err (
    new_error code_command_failed (text "no reply received from device")
      (with_context native_context ∷ []))
last_reply (r ∷ []) = ok r
last_reply (r ∷ (r' ∷ rs)) = last_reply (r' ∷ rs)

abbrev pub terminal : Result (List Reply) → Result Reply
terminal (ok rs) = last_reply rs
terminal (err e) = err e

abbrev pub inspect_command : Text → Text → Command
inspect_command request path = record {
  path = text "/console";
  verb = text "inspect";
  attributes = (text "request", request) ∷ (text "path", path) ∷ [];
  queries = [];
  proplist = [];
  script = [];
}

abbrev node_of : Reply → InspectNode
node_of rep = record {
  kind = get_or_empty (text "type") rep.attributes;
  node_type = get_or_empty (text "node-type") rep.attributes;
  name = get_or_empty (text "name") rep.attributes;
  completion = get_or_empty (text "completion") rep.attributes;
  value = get_or_empty (text "value") rep.attributes;
  text_form = get_or_empty (text "text") rep.attributes;
}

abbrev pub nodes_of : List Reply → List InspectNode
nodes_of [] = []
nodes_of (rep ∷ reps) =
    if text_eq rep.kind reply_re then node_of rep ∷ nodes_of reps else nodes_of reps

abbrev pub rows_of : Result (List Reply) → Result (List InspectNode)
rows_of (ok reps) = ok (nodes_of reps)
rows_of (err e) = err e

-- Whether an error is a device's, found through its causes.
abbrev pub is_device : GoError → Bool
is_device e = elim (as_device e) [ none ↦ false | some sen ↦ true ]

abbrev pub note_inspect : Session → Result (List InspectNode) → Session × Option GoError
note_inspect s (ok nodes) = (record s { inspect_probed = true; supports_inspect = true }, none)
note_inspect s (err e) =
    if is_device e then (record s { inspect_probed = true }, none) else (s, some e)

abbrev pub parse_probe : Command
parse_probe = script_command (text ":put \"probe\"")

abbrev pub note_parse : Session → Result Reply → Session × Option GoError
note_parse s (ok rep) =
    (record s { parse_probed = true; supports_parse = not (is_empty (ret rep)) }, none)
note_parse s (err e) = if is_device e then (record s { parse_probed = true }, none) else (s, some e)

module _ (format : Sentence → Text) (wire : Wire) where
  abbrev pub translated : Result Legacy.Reply → Result (List Reply)
  translated (ok r) = ok (translate_reply r)
  translated (err e) = err (translate_error format e)

  -- `List`
  unfoldable pub list_replies : Command → Session → Session × Result (List Reply)
  list_replies cmd s =
      (record s { sent = s.sent ++ (words cmd ∷ []) }, translated (wire s.sent (words cmd)))

  -- `Command`
  unfoldable pub command : Command → Session → Session × Result Reply
  unfolding list_replies
  command cmd s = let (s', r) = list_replies cmd s in (s', terminal r)

  -- `InspectNodes`
  unfoldable pub inspect_nodes : Text → Text → Session → Session × Result (List InspectNode)
  unfolding list_replies
  inspect_nodes request path s =
      let (s', r) =
        list_replies (inspect_command request path)
          (record s { inspect_trips = s.inspect_trips + 1 }) in
      (s', rows_of r)

  -- `ProbeInspect`
  unfoldable pub probe_inspect : Session → Session × Option GoError
  probe_inspect s =
      if s.inspect_probed
      then (s, none)
      else (let (s', r) = inspect_nodes inspect_child (text "system") s in note_inspect s' r)

  -- `ProbeParse`
  unfoldable pub probe_parse : Session → Session × Option GoError
  probe_parse s =
      if s.parse_probed then (s, none) else (let (s', r) = command parse_probe s in note_parse s' r)

-- `SupportsInspect` and `SupportsParse`
abbrev pub session_inspects : Session → Bool
session_inspects s = s.inspect_probed && s.supports_inspect

abbrev pub session_parses : Session → Bool
session_parses s = s.parse_probed && s.supports_parse
