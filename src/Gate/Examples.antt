-- ===== src/Gate/Examples.antt =====
-- The gates on concrete texts.
use goros.Common.{
  List, none, ◌⊎◌, ◌↔◌, if◌then◌else◌, text, [], ◌∷◌, ◌++◌, true, false, ◌≡◌, Lacks, arith,
}
use goros.Roserr.{Result, ok, err, canceled}
use goros.Transport.{Command, Reply, script_command}
use goros.Gate.Quotes.{string_literal}
use goros.Schema.Store.{Device, new_store, discover}
use goros.Gate.Syntax.{Gate1, rendered, skips, run}
use goros.Gate.Syntax.Laws.{Accepted, Embeds, run_accepts_iff, run_sends}
use goros.Gate.Attributes.{validate}
use goros.Gate.Attributes.Laws.{Passes, validate_accepts_iff}

one_line_answer : Lacks 10 (text "bad parameter x)")
one_line_answer = ground arith

-- A transport whose device accepts every script.
abbrev accepting_transport : List Command → Command → Result Reply
accepting_transport calls cmd = ok (record {
  kind = text "!done";
  attributes = (text "ret", text "(evl ok)") ∷ [];
  tag = [];
  raw_words = [];
})

abbrev gate1 : Gate1
gate1 = record { transport = accepting_transport; render_cli = none; supports_parse = none }

abbrev set_name : Command
set_name = script_command (text "/system/identity set name=a")

run_accepts_iff_example : ((run gate1 set_name []).1 ≡ none) ↔ Accepted gate1 set_name []
run_accepts_iff_example = run_accepts_iff gate1 set_name []

run_sends_example :
    ((run gate1 set_name []).0 ≡ [])
    ⊎ (((run gate1 set_name []).0
          ≡ []
            ++ (script_command
                  (text ":put [:parse " ++ string_literal (rendered gate1 set_name) ++ text "]")
                ∷ []))
        × Embeds (rendered gate1 set_name))
run_sends_example = run_sends gate1 set_name []

abbrev silent_device : Device
silent_device calls probe = err canceled

validate_accepts_iff_example :
    (((validate silent_device 5 4 none set_name new_store).1 ≡ none) ↔ (
      (skips none ≡ true)
      ⊎ ((skips none ≡ false) × Passes set_name (discover silent_device 5 [] [] 4 new_store).1)))
    × ((validate silent_device 5 4 none set_name new_store).0
        ≡ (if skips none then new_store else (discover silent_device 5 [] [] 4 new_store).0))
validate_accepts_iff_example = validate_accepts_iff silent_device 5 4 none set_name new_store
