-- ===== src/Mock/Seam.antt =====
-- The mock as a structured transport, and that it refuses what it does not support.
use goros.Common.{Text, text, List, Bool, true, false, if◌then◌else◌, Option, ◌≡◌, refl, arith}
use goros.Roserr.{GoError, Result, err, code_capability_unsupported}
use goros.Roserr.Chain.{is_code}
use goros.Transport.Seam.{StructuredTransport, IsHonest, Refused}
use goros.Mock.{MockTransport, unsupported, mock_command, mock_inspect, mock_run}

unsupported-is_code : (what : Text) → is_code code_capability_unsupported (unsupported what) ≡ true
unfolding is_code goros.Common.text_eq
unsupported-is_code what = refl

Refused-if :
    {A : Type 0} (what : Text) (b : Bool) (t : MockTransport) (x : MockTransport × Result A)
    → b ≡ false
    → Refused t (if b then x else (t, err (unsupported what)))
Refused-if what true t x e = absurd (cc)
Refused-if what false t x e = (refl, (unsupported what, refl, unsupported-is_code what))

abbrev pub mock_transport : Option GoError → StructuredTransport MockTransport
mock_transport ctx = record {
  capabilities_of = λ t. t.supports;
  send_command = λ cmd t. mock_command ctx cmd t;
  send_inspect = λ request path t. mock_inspect ctx request path t;
}

pub mock_transport-IsHonest : (ctx : Option GoError) → IsHonest MockTransport (mock_transport ctx)
unfolding mock_command mock_inspect
mock_transport-IsHonest ctx = record {
  refuses_command = λ cmd t e. Refused-if (text "structured commands") t.supports.structured t _ e;
  refuses_inspect =
      λ request path t e. Refused-if (text "/console/inspect") t.supports.inspect t _ e;
}

-- A console line is refused as well where the mock has no console.
pub mock_run-Refused :
    (ctx : Option GoError) (line : Text) (t : MockTransport)
    → t.supports.console ≡ false
    → Refused t (mock_run ctx line t)
unfolding mock_run
mock_run-Refused ctx line t e = Refused-if (text "console lines") t.supports.console t _ e
