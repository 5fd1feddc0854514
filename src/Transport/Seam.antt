-- ===== src/Transport/Seam.antt =====
-- The interface `StructuredTransport` of transport/contract.go, as operations on a transport's state,
-- and what the comment on `Capabilities` asks of every transport.
use goros.Common.{Text, List, true, false, ◌≡◌}
use goros.Roserr.{GoError, Result, err, code_capability_unsupported}
use goros.Roserr.Chain.{is_code}
use goros.Transport.{Command, Reply, Capabilities, InspectNode}

pub record StructuredTransport (State : Type 0) : Type 0 where
  pub capabilities_of : State → Capabilities
  pub send_command : Command → State → State × Result Reply
  pub send_inspect : Text → Text → State → State × Result (List InspectNode)

-- An error of the code for what is not supported, and nothing else.
abbrev pub Refused : {State A : Type 0} → State → State × Result A → Type 0
Refused s (s', r) =
    (s' ≡ s) × ((e : GoError) × (r ≡ err e) × (is_code code_capability_unsupported e ≡ true))

-- What is not supported is refused.
pub record IsHonest (State : Type 0) (t : StructuredTransport State) : Type 0 where
  pub refuses_command :
      (cmd : Command) (s : State)
      → (t.capabilities_of s).structured ≡ false
      → Refused s (t.send_command cmd s)
  pub refuses_inspect :
      (request path : Text) (s : State)
      → (t.capabilities_of s).inspect ≡ false
      → Refused s (t.send_inspect request path s)
