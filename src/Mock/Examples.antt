-- ===== src/Mock/Examples.antt =====
-- A mock without a console.
use goros.Common.{text, List, [], ◌∷◌, none, some, ◌≡◌, refl}
use goros.Roserr.{ok, canceled}
use goros.Transport.{script_command}
use goros.Mock.{new_structured, mock_command, mock_inspect, mock_run}
use goros.Mock.Counters.{Operation, sets_run, commands, inspects, runs, closes, perform_all}

-- A command, a console line that is refused, and a probe under a context that is done.
abbrev calls_made : List Operation
calls_made =
    sets_run (λ line. ok line)
    ∷ commands none (script_command (text ":put 1"))
    ∷ runs none (text "/ip address print")
    ∷ inspects (some canceled) (text "child") (text "system")
    ∷ closes
    ∷ []

two_calls : (perform_all calls_made new_structured).command_calls ≡ 1
unfolding mock_command mock_inspect mock_run
two_calls = refl
