-- ===== src/Orchestrate.antt =====
-- orchestrate.go: the pipeline of a session, its schema store and both gates. The gates and the store
-- ask the session; what they have asked so far is part of what the session has sent.
pub mod Guard
pub mod OnWire
pub mod Metrics
pub mod Order
mod Examples
use goros.Common.{
  ℕ, ◌+◌, Text, text, Bool, true, false, List, [], ◌∷◌, ◌++◌, Option, none, some, if◌then◌else◌,
  is_empty, length,
}
use goros.Roserr.{GoError, Result, ok, err}
use goros.Proto.Sentence.{Sentence}
use goros.Transport.{Reply, Command, words}
use goros.Schema.{CommandSchema}
use goros.Schema.Store.{Probe, Device, Store, new_store, discover}
use goros.Gate.Syntax.{Gate1}
use goros.Gate.Syntax as Syntax
use goros.Gate.Attributes as Attributes
use goros.Session.{
  Wire, Session, new_session, command, inspect_command, inspect_nodes, probe_inspect, probe_parse,
  session_inspects, session_parses,
}

-- The fields of `runState` that `ensureRun` sets, with the session.
pub record Pipeline : Type 0 where
  pub session : Session
  pub ready : Bool
  pub store : Store

abbrev pub new_pipeline : Pipeline
new_pipeline = record { session = new_session; ready = false; store = new_store }

abbrev pub sentences_of : List Command → List (List Text)
sentences_of [] = []
sentences_of (cmd ∷ cmds) = words cmd ∷ sentences_of cmds

abbrev pub probe_sentences : List Probe → List (List Text)
probe_sentences [] = []
probe_sentences (probe ∷ probes) =
    words (inspect_command probe.request probe.path) ∷ probe_sentences probes

-- The session after the commands of Gate 1, and after the probes of the store.
abbrev pub after_commands : Session → List Command → Session
after_commands s cmds = record s { sent = s.sent ++ sentences_of cmds }

abbrev pub after_probes : Session → List Probe → Session
after_probes s probes = record s {
  sent = s.sent ++ probe_sentences probes;
  inspect_trips = s.inspect_trips + length probes;
}

module _ (format : Sentence → Text) (wire : Wire) where
  -- The interfaces that `clientTransport` gives to Gate 1 and to the store.
  abbrev pub session_gate : Session → Gate1
  session_gate s = record {
    transport = λ calls cmd. (command format wire cmd (after_commands s calls)).1;
    render_cli = none;
    supports_parse = some (session_parses s);
  }

  abbrev pub session_device : Session → Device
  session_device s calls probe =
      (inspect_nodes format wire probe.request probe.path (after_probes s calls)).1

  -- The store with its probes counted anew.
  abbrev pub recounted : Store → Store
  recounted s = record s { calls = [] }

  abbrev pub note_ready : Pipeline → Session × Option GoError → Pipeline × Option GoError
  note_ready p (s, some e) = (record p { session = s }, some e)
  note_ready p (s, none) = (record p { session = s; ready = true; store = new_store }, none)

  abbrev pub then_parse : Pipeline → Session × Option GoError → Pipeline × Option GoError
  then_parse p (s, some e) = (record p { session = s }, some e)
  then_parse p (s, none) = note_ready p (probe_parse format wire s)

  -- `ensureRun`
  unfoldable pub ensure_run : Pipeline → Pipeline × Option GoError
  ensure_run p = if p.ready then (p, none) else then_parse p (probe_inspect format wire p.session)

  module _ (later now : ℕ) where
    -- `validate`: Gate 1 for a script, Gate 2 for a structured command.
    unfoldable pub validate : Command → Pipeline → Pipeline × Option GoError
    validate cmd p =
        if is_empty cmd.script
        then (let (s, e) =
              Attributes.validate (session_device p.session) later now
                (some (session_inspects p.session)) cmd (recounted p.store) in
            (record p { session = after_probes p.session s.calls; store = s }, e))
        else (let (calls, e) = Syntax.run (session_gate p.session) cmd [] in
            (record p { session = after_commands p.session calls }, e))

    -- The rest of a facade method, unless there is an error already.
    abbrev pub and_then {ℓ} :
        {A : Type ℓ}
        → Pipeline × Option GoError
        → (Pipeline → Pipeline × Result A)
        → Pipeline × Result A
    and_then (p, some e) next = (p, err e)
    and_then (p, none) next = next p

    abbrev pub validated : Pipeline × Option GoError → Command → Pipeline × Option GoError
    validated (p, some e) cmd = (p, some e)
    validated (p, none) cmd = validate cmd p

    -- `Validate`
    unfoldable pub validate_command : Command → Pipeline → Pipeline × Option GoError
    validate_command cmd p = validated (ensure_run p) cmd

    -- `Inspect`
    unfoldable pub inspect_schema : Text → Text → Pipeline → Pipeline × Result CommandSchema
    inspect_schema path verb p = and_then (ensure_run p) (λ q.
        let (s, r) = discover (session_device q.session) later path verb now (recounted q.store) in
        (record q { session = after_probes q.session s.calls; store = s }, r))

    -- `Command` of the session.
    abbrev pub execute : Command → Pipeline → Pipeline × Result Reply
    execute cmd p = let (s, r) = command format wire cmd p.session in (record p { session = s }, r)

    -- `RunStructured`
    unfoldable pub run_structured : Command → Pipeline → Pipeline × Result Reply
    run_structured cmd p = and_then (ensure_run p) (λ q. and_then (validate cmd q) (execute cmd))
