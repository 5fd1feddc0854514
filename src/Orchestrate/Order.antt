-- ===== src/Orchestrate/Order.antt =====
-- A run of a command does not depend on the order in which a range meets its attributes.
use goros.Common.{ℕ, Text, List, [], Option, none, some, ◌≡◌, refl, ap, ◌∙◌, arith}
use goros.Common.Assoc.{Assoc}
use goros.Roserr.{GoError, Result, ok, err}
use goros.Proto.Sentence.{Sentence}
use goros.Transport.{Command, Reply, script_command}
use goros.Transport.Order.{SameMap, renderings_same}
use goros.Gate.Syntax.{Gate1, check, rendered, verdict, parse_script}
use goros.Gate.Syntax as Syntax
use goros.Gate.Attributes.Order.{reordered, validate_same}
use goros.Session.{Wire, Session, session_inspects, command, list_replies}
use goros.Orchestrate.{
  Pipeline, session_gate, session_device, recounted, validate, and_then, execute, ensure_run,
  run_structured,
}

module _ (cmd : Command) (m : Assoc Text) (same : SameMap cmd.attributes m) where
  rendered_same : (g : Gate1) → g.render_cli ≡ none → rendered g cmd ≡ rendered g (reordered cmd m)
  rendered_same g plain = let line = (renderings_same cmd m same).0 in ground (arith, line)

  verdict_same : (r : Result Reply) → verdict cmd r ≡ verdict (reordered cmd m) r
  verdict_same (ok rep) = refl
  verdict_same (err e) = refl

  gate_same :
      (g : Gate1) (calls : List Command)
      → g.render_cli ≡ none
      → Syntax.run g cmd calls ≡ Syntax.run g (reordered cmd m) calls
  unfolding Syntax.run check
  gate_same g calls plain = cc (
    rendered_same g plain,
    verdict_same (g.transport calls (script_command (parse_script (rendered g cmd)))),
  )

  command_same :
      (format : Sentence → Text) (wire : Wire) (s : Session)
      → command format wire cmd s ≡ command format wire (reordered cmd m) s
  unfolding command list_replies
  command_same format wire s = let same_words = (renderings_same cmd m same).2 in cc (same_words)

  module _ (format : Sentence → Text) (wire : Wire) (later now : ℕ) where
    validate_pipeline_same :
        (p : Pipeline)
        → validate format wire later now cmd p ≡ validate format wire later now (reordered cmd m) p
    unfolding validate
    validate_pipeline_same p = cc (
      validate_same (session_device format wire p.session) later now
          (some (session_inspects p.session)) cmd m (recounted format wire p.store) same,
      gate_same (session_gate format wire p.session) [] refl,
    )

    -- What `RunStructured` does behind `ensureRun`.
    abbrev checked_run : Command → Pipeline → Pipeline × Result Reply
    checked_run c q =
        and_then format wire later now (validate format wire later now c q)
          (execute format wire later now c)

    execute_same :
        (p : Pipeline)
        → execute format wire later now cmd p ≡ execute format wire later now (reordered cmd m) p
    execute_same p =
        ap (λ (r : Session × Result Reply). (record p { session = r.0 }, r.1))
          (command_same format wire p.session)

    then_same :
        (r : Pipeline × Option GoError)
        → and_then format wire later now r (execute format wire later now cmd)
          ≡ and_then format wire later now r (execute format wire later now (reordered cmd m))
    then_same (p, some e) = refl
    then_same (p, none) = execute_same p

    checked_run_same : (q : Pipeline) → checked_run cmd q ≡ checked_run (reordered cmd m) q
    checked_run_same q =
        then_same (validate format wire later now cmd q)
        ∙ ap
            (λ r.
              and_then format wire later now r (execute format wire later now (reordered cmd m)))
            (validate_pipeline_same q)

    behind_same :
        (r : Pipeline × Option GoError)
        → and_then format wire later now r (checked_run cmd)
          ≡ and_then format wire later now r (checked_run (reordered cmd m))
    behind_same (p, some e) = refl
    behind_same (p, none) = checked_run_same p

    -- `RunStructured` sends the same sentences, returns the same result and leaves the same session and
    -- the same store in whatever order the ranges of the code meet the attributes of the command.
    pub run_structured_same :
        (p : Pipeline)
        → run_structured format wire later now cmd p
          ≡ run_structured format wire later now (reordered cmd m) p
    unfolding run_structured
    run_structured_same p = behind_same (ensure_run format wire p)
