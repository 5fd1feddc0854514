-- ===== src/Session/Adapter.antt =====
-- `clientTransport` of client_transport.go and `Adapter` of transport/nativeapi/nativeapi.go: the
-- session as a structured transport.
use goros.Common.{Text, List, Bool, true, false, Option}
use goros.Roserr.{GoError, Result}
use goros.Proto.Sentence.{Sentence}
use goros.Transport.{Command, Reply, Capabilities}
use goros.Transport.Seam.{StructuredTransport, IsHonest}
use goros.Session.{
  Wire, Session, list_replies, command, inspect_nodes, probe_inspect, probe_parse, session_inspects,
  session_parses,
}

abbrev pub native_capabilities : Capabilities
native_capabilities = record { structured = true; console = false; inspect = true }

module _ (format : Sentence → Text) (wire : Wire) where
  abbrev pub client_transport : StructuredTransport Session
  client_transport = record {
    capabilities_of = λ s. native_capabilities;
    send_command = λ cmd s. command format wire cmd s;
    send_inspect = λ request path s. inspect_nodes format wire request path s;
  }

  -- The methods of the adapter that the interface does not have.
  pub record Adapter : Type 0 where
    pub seam : StructuredTransport Session
    pub list : Command → Session → Session × Result (List Reply)
    pub probes_inspect : Session → Session × Option GoError
    pub inspects : Session → Bool
    pub probes_parse : Session → Session × Option GoError
    pub parses : Session → Bool

  abbrev pub new_adapter : Adapter
  new_adapter = record {
    seam = record {
      capabilities_of = λ s. native_capabilities;
      send_command = λ cmd s. command format wire cmd s;
      send_inspect = λ request path s. inspect_nodes format wire request path s;
    };
    list = λ cmd s. list_replies format wire cmd s;
    probes_inspect = λ s. probe_inspect format wire s;
    inspects = session_inspects;
    probes_parse = λ s. probe_parse format wire s;
    parses = session_parses;
  }

  -- Both support both operations, so that there is nothing to refuse.
  pub client_transport-IsHonest : IsHonest Session client_transport
  client_transport-IsHonest = record {
    refuses_command = λ cmd s e. absurd (cc);
    refuses_inspect = λ request path s e. absurd (cc);
  }
