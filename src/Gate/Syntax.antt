-- ===== src/Gate/Syntax.antt =====
-- `Gate1` of gate/gate1.go and its console form of gate/console.go. `calls` are the commands that the
-- transport has been given so far; its answer may depend on them.
pub mod Laws
use goros.Common.{
  Text, text, Bool, true, false, not, ◌&&◌, List, [], ◌∷◌, ◌++◌, Option, none, some, if◌then◌else◌,
  is_empty, ◌==◌,
}
use goros.Common.Assoc.{Assoc}
use goros.Roserr.{
  GoError, Result, ok, err, Value, text_value, number_value, Context, code_validation_syntax,
  with_context, new_error,
}
use goros.Transport.{Command, Reply, ret, reply_re, script_command, cli, console_cli}
use goros.Gate.Quotes.{string_literal, has_unbalanced_quotes}
use goros.Gate.Classify.{ClassifyResult, classify}

-- `transport` is the seam `CommandTransport`, and `supports_parse` what the function of that name
-- returns, `none` where it is nil.
pub record Gate1 : Type 0 where
  pub transport : List Command → Command → Result Reply
  pub render_cli : Option (Command → Text)
  pub supports_parse : Option Bool

abbrev pub rendered : Gate1 → Command → Text
rendered g cmd = elim g.render_cli [ none ↦ cli cmd | some render ↦ render cmd ]

abbrev pub parse_script : Text → Text
parse_script line = text ":put [:parse " ++ string_literal line ++ text "]"

abbrev gate1_context : Text → Assoc Value → Context
gate1_context path extra = record {
  via = text "gate1";
  host = [];
  port = 0;
  path = path;
  extra = extra;
}

abbrev pub unbalanced : Command → GoError
unbalanced cmd =
    new_error code_validation_syntax (text "command contains unbalanced quotes")
      (with_context (gate1_context cmd.path []) ∷ [])

-- The details that a rejection carries.
abbrev extra_of : ClassifyResult → Assoc Value
extra_of res =
    (if is_empty res.attribute then [] else (text "attribute", text_value res.attribute) ∷ [])
    ++ (if res.line == 0 && res.col == 0
        then []
        else (text "line", number_value res.line) ∷ (text "col", number_value res.col) ∷ [])

abbrev pub rejection : Command → ClassifyResult → GoError
rejection cmd res =
    new_error res.code res.message (with_context (gate1_context cmd.path (extra_of res)) ∷ [])

abbrev pub verdict : Command → Result Reply → Option GoError
verdict cmd (err e) = some e
verdict cmd (ok rep) =
    let res = classify (ret rep) in if res.valid then none else some (rejection cmd res)

-- `Run` of a session that can parse: the commands that the transport has been given then, and the error.
unfoldable pub check : Gate1 → Command → List Command → List Command × Option GoError
check g cmd calls =
    let line = rendered g cmd in
    if has_unbalanced_quotes line
    then (calls, some (unbalanced cmd))
    else (let script = script_command (parse_script line) in
        (calls ++ (script ∷ []), verdict cmd (g.transport calls script)))

-- `f != nil && !f()`, where `none` is the nil function.
abbrev pub skips : Option Bool → Bool
skips none = false
skips (some supported) = not supported

unfoldable pub run : Gate1 → Command → List Command → List Command × Option GoError
unfolding check
run g cmd calls = if skips g.supports_parse then (calls, none) else check g cmd calls

-- `consoleCommandTransport.Command` over `Run` of the console.
unfoldable pub console_command : (Text → Result Text) → Command → Result Reply
console_command console cmd =
    let line = if is_empty cmd.script then console_cli cmd else cmd.script in
    elim (console line) [
      | err e ↦ err e
      | ok out ↦ ok (record {
        kind = reply_re;
        attributes = (text "ret", out) ∷ [];
        tag = [];
        raw_words = [];
      })
    ]

-- `NewConsoleGate`
abbrev pub new_console_gate : (List Command → Text → Result Text) → Option Bool → Gate1
new_console_gate console supports_parse = record {
  transport = λ calls cmd. console_command (console calls) cmd;
  render_cli = some (λ cmd. console_cli cmd);
  supports_parse = supports_parse;
}

unfoldable pub validate_console :
    (List Command → Text → Result Text) → Text → List Command → List Command × Option GoError
validate_console console line calls =
    run (new_console_gate console none) (script_command line) calls
