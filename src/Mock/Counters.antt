-- ===== src/Mock/Counters.antt =====
-- That the counters of the mock count what it has recorded, and that it records no call of a seam
-- that it does not support.
use goros.Common.{
  Text, ℕ, ◌+◌, Bool, true, false, List, [], ◌∷◌, ◌++◌, length, length-append, Option,
  if◌then◌else◌, ◌≡◌, refl, arith,
}
use goros.Roserr.{GoError, Result}
use goros.Transport.{Command, Reply, InspectNode, Capabilities}
use goros.Mock.{
  Call, command_call, inspect_call, run_call, MockTransport, new_mock, set_command_fn,
  set_inspect_fn, set_run_fn, set_close_error, close_mock, mock_command, mock_inspect, mock_run,
}

-- One operation of a test on the mock.
pub data Operation : Type 0 where
  sets_command : (Command → Result Reply) → Operation
  sets_inspect : (Text → Text → Result (List InspectNode)) → Operation
  sets_run : (Text → Result Text) → Operation
  sets_close_error : Option GoError → Operation
  closes : Operation
  commands : Option GoError → Command → Operation
  inspects : Option GoError → Text → Text → Operation
  runs : Option GoError → Text → Operation

abbrev pub perform : Operation → MockTransport → MockTransport
perform (sets_command fn) t = set_command_fn fn t
perform (sets_inspect fn) t = set_inspect_fn fn t
perform (sets_run fn) t = set_run_fn fn t
perform (sets_close_error e) t = set_close_error e t
perform closes t = (close_mock t).0
perform (commands ctx cmd) t = (mock_command ctx cmd t).0
perform (inspects ctx request path) t = (mock_inspect ctx request path t).0
perform (runs ctx line) t = (mock_run ctx line t).0

abbrev pub perform_all : List Operation → MockTransport → MockTransport
perform_all [] t = t
perform_all (o ∷ os) t = perform_all os (perform o t)

-- How many calls of a kind are recorded.
abbrev pub one_if : Bool → ℕ
one_if true = 1
one_if false = 0

abbrev pub count : (Call → Bool) → List Call → ℕ
count kind [] = 0
count kind (c ∷ calls) = one_if (kind c) + count kind calls

abbrev pub is_command : Call → Bool
is_command (command_call cmd) = true
is_command _ = false

abbrev pub is_inspect : Call → Bool
is_inspect (inspect_call request path) = true
is_inspect _ = false

abbrev pub is_run : Call → Bool
is_run (run_call line) = true
is_run _ = false

-- The counters count the recorded calls of their kind, all calls are counted, and none is recorded
-- of a seam that is not supported.
pub record Counts (supports : Capabilities) (calls : List Call) (commands inspects runs : ℕ)
    : Type 0 where
  pub command_count : commands ≡ count is_command calls
  pub inspect_count : inspects ≡ count is_inspect calls
  pub run_count : runs ≡ count is_run calls
  pub total : length calls ≡ commands + inspects + runs
  pub no_commands : supports.structured ≡ false → commands ≡ 0
  pub no_inspects : supports.inspect ≡ false → inspects ≡ 0
  pub no_runs : supports.console ≡ false → runs ≡ 0

abbrev pub Counted : MockTransport → Type 0
Counted t = Counts t.supports t.calls t.command_calls t.inspect_calls t.run_calls

count-append :
    (kind : Call → Bool) (calls : List Call) (c : Call)
    → count kind (calls ++ (c ∷ [])) ≡ count kind calls + one_if (kind c)
count-append kind [] c = omega arith
count-append kind (d ∷ calls) c = omega (arith, count-append kind calls c)

Counted-if :
    {A : Type 0} (b : Bool) (x y : MockTransport × A)
    → (b ≡ true → Counted x.0)
    → (b ≡ false → Counted y.0)
    → Counted (if b then x else y).0
Counted-if true x y hx hy = hx refl
Counted-if false x y hx hy = hy refl

module _ (supports : Capabilities) (calls : List Call) (commands inspects runs : ℕ)
    (c : Counts supports calls commands inspects runs) where
  command-Counts :
      (cmd : Command)
      → supports.structured ≡ true
      → Counts supports (calls ++ (command_call cmd ∷ [])) (commands + 1) inspects runs
  command-Counts cmd s = record {
    command_count =
        omega (arith, c.command_count, count-append is_command calls (command_call cmd));
    inspect_count =
        omega (arith, c.inspect_count, count-append is_inspect calls (command_call cmd));
    run_count = omega (arith, c.run_count, count-append is_run calls (command_call cmd));
    total = omega (arith, c.total, length-append calls (command_call cmd ∷ []));
    no_commands = λ e. absurd (cc);
    no_inspects = c.no_inspects;
    no_runs = c.no_runs;
  }

  inspect-Counts :
      (request path : Text)
      → supports.inspect ≡ true
      → Counts supports (calls ++ (inspect_call request path ∷ [])) commands (inspects + 1) runs
  inspect-Counts request path s = record {
    command_count =
        omega (arith, c.command_count, count-append is_command calls (inspect_call request path));
    inspect_count =
        omega (arith, c.inspect_count, count-append is_inspect calls (inspect_call request path));
    run_count = omega (arith, c.run_count, count-append is_run calls (inspect_call request path));
    total = omega (arith, c.total, length-append calls (inspect_call request path ∷ []));
    no_commands = c.no_commands;
    no_inspects = λ e. absurd (cc);
    no_runs = c.no_runs;
  }

  run-Counts :
      (line : Text)
      → supports.console ≡ true
      → Counts supports (calls ++ (run_call line ∷ [])) commands inspects (runs + 1)
  run-Counts line s = record {
    command_count = omega (arith, c.command_count, count-append is_command calls (run_call line));
    inspect_count = omega (arith, c.inspect_count, count-append is_inspect calls (run_call line));
    run_count = omega (arith, c.run_count, count-append is_run calls (run_call line));
    total = omega (arith, c.total, length-append calls (run_call line ∷ []));
    no_commands = c.no_commands;
    no_inspects = c.no_inspects;
    no_runs = λ e. absurd (cc);
  }

perform-Counted : (o : Operation) (t : MockTransport) → Counted t → Counted (perform o t)
unfolding mock_command mock_inspect mock_run
perform-Counted (sets_command fn) t c = c
perform-Counted (sets_inspect fn) t c = c
perform-Counted (sets_run fn) t c = c
perform-Counted (sets_close_error e) t c = c
perform-Counted closes t c = c
perform-Counted (commands ctx cmd) t c =
    Counted-if t.supports.structured _ _
      (command-Counts t.supports t.calls t.command_calls t.inspect_calls t.run_calls c cmd) (λ s. c)
perform-Counted (inspects ctx request path) t c =
    Counted-if t.supports.inspect _ _
      (inspect-Counts t.supports t.calls t.command_calls t.inspect_calls t.run_calls c request path)
      (λ s. c)
perform-Counted (runs ctx line) t c =
    Counted-if t.supports.console _ _
      (run-Counts t.supports t.calls t.command_calls t.inspect_calls t.run_calls c line) (λ s. c)

-- From whatever counts right, every sequence of operations does: each counter is the number of the
-- recorded calls of its kind, their sum is the number of all, and no call is recorded of a seam that
-- the mock does not support.
pub perform_all-Counted :
    (os : List Operation) (t : MockTransport) → Counted t → Counted (perform_all os t)
perform_all-Counted [] t c = c
perform_all-Counted (o ∷ os) t c = perform_all-Counted os (perform o t) (perform-Counted o t c)

-- A mock that has recorded nothing counts right, whatever it supports.
pub unused-Counted : (supports : Capabilities) → Counted (record new_mock { supports = supports })
unused-Counted supports = record {
  command_count = refl;
  inspect_count = refl;
  run_count = refl;
  total = refl;
  no_commands = λ e. refl;
  no_inspects = λ e. refl;
  no_runs = λ e. refl;
}
