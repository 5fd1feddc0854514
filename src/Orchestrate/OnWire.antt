-- ===== src/Orchestrate/OnWire.antt =====
-- The pipeline of orchestrate.go down to the bytes of the connection: what the session asks goes through
-- `RunArgsContext` in synchronous mode, and the device answers with sentences.
use goros.Common.{ℕ, Text, List, [], ◌∷◌, ◌++◌, Option, none, some, All, ◌≡◌, sym, subst, ap}
use goros.Roserr.{GoError, Result}
use goros.Proto.Sentence.{Sentence}
use goros.Proto.Writer.{Link}
use goros.Proto.Writer.Laws.{Accepts}
use goros.Client.Conversation.Refinement.{Fits}
use goros.Transport.{Command, words}
use goros.Transport as Transport
use goros.Session.{Wire}
use goros.Orchestrate.{Pipeline, new_pipeline, validate_command, run_structured}
use goros.Orchestrate.Guard.{IsProbe, Guarded, validate_command_sends, run_structured-Guarded}
use goros.Client.Conversation.OnWire.{Answers, exchange, wire_of, OnWire, sent-OnWire}

-- What a command adds to the sentences of its validation: nothing where validation fails, and its own
-- sentence where it succeeds.
abbrev pub Adds : Command → Pipeline × Option GoError → List (List Text) → Type 0
Adds cmd (v, some e) sent = sent ≡ v.session.sent
Adds cmd (v, none) sent = sent ≡ v.session.sent ++ (words cmd ∷ [])

module _ (format : Sentence → Text) (wire : Wire) (later now : ℕ) (cmd : Command) where
  Guarded-Adds :
      (v : Pipeline × Option GoError) (q : Pipeline × Result Transport.Reply)
      → Guarded format wire later now cmd v q
      → Adds cmd v q.0.session.sent
  Guarded-Adds (v, some e) q h = ap (λ q. q.0.session.sent) h
  Guarded-Adds (v, none) (q, r) h = h

  validated-IsProbe :
      All IsProbe (validate_command format wire later now cmd new_pipeline).0.session.sent
  validated-IsProbe =
      let (added, same, probes) = validate_command_sends format wire later now cmd new_pipeline in
      subst (All IsProbe) (sym same) probes

-- A command of a new session, from `RunStructured` to the bytes: over a connection that takes all it is
-- given, to a device that answers each sentence with well-formed sentences, the device gets the bytes
-- of the sentences of the validation, each of them an inspect probe, the probe for `:parse`, or
-- `:put [:parse …]` around the literal of a line, which is read back as the line exactly where it has
-- no `$`; then the command's own where validation
-- succeeds, and nothing else; and what the client reads for each sentence from the bytes of the answers
-- is the reply or the error that the session was given.
pub run_structured-OnWire :
    (format : Sentence → Text) (a : Answers) (k : Link) (later now : ℕ) (cmd : Command)
    (rest : Text)
    → Accepts k
    → ((sent : List (List Text)) (ws : List Text) → Fits (exchange a sent ws))
    → All IsProbe (validate_command format (wire_of a) later now cmd new_pipeline).0.session.sent
      × Adds cmd
          (validate_command format (wire_of a) later now cmd new_pipeline)
          (run_structured format (wire_of a) later now cmd new_pipeline).0.session.sent
      × OnWire a k
          (run_structured format (wire_of a) later now cmd new_pipeline).0.session.sent
          rest
run_structured-OnWire format a k later now cmd rest good h =
    let v = validate_command format (wire_of a) later now cmd new_pipeline in
    let q = run_structured format (wire_of a) later now cmd new_pipeline in
    (
      validated-IsProbe format (wire_of a) later now cmd,
      Guarded-Adds format (wire_of a) later now cmd v q
          (run_structured-Guarded format (wire_of a) later now cmd new_pipeline),
      sent-OnWire a k q.0.session.sent rest good h,
    )
