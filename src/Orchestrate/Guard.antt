-- ===== src/Orchestrate/Guard.antt =====
-- What a validation may send, and when a command is executed.
use goros.Common.{
  ℕ, Text, text, Bool, true, false, List, [], ◌∷◌, ◌++◌, Option, none, some, if◌then◌else◌,
  is_empty, All, ◌≡◌, refl, sym, ap, ◌∙◌, ◌⊎◌, inl, inr, Bool-cases, append_assoc, append-nil,
  trim_right_by,
}
use goros.Roserr.{GoError, Result, ok, err}
use goros.Proto.Sentence.{Sentence}
use goros.Transport.{InspectNode, inspect_child, Reply, Command, words, script_command}
use goros.Schema.Store.{Probe}
use goros.Gate.Attributes as Attributes
use goros.Gate.Syntax.{Gate1, rendered}
use goros.Gate.Syntax as Syntax
use goros.Gate.Quotes.{string_literal}
use goros.Gate.Syntax.Laws.{Embeds, run_sends}
use goros.Session.{
  session_inspects, Wire, Session, command, inspect_command, inspect_nodes, probe_inspect,
  probe_parse, parse_probe, note_inspect, note_parse, is_device,
}
use goros.Orchestrate.{
  Pipeline, probe_sentences, after_commands, session_gate, session_device, recounted, validated,
  and_then, note_ready, then_parse, ensure_run, validate, validate_command, run_structured, execute,
}

-- An inspect probe, the script that probes for `:parse`, or a script that has the literal of a
-- line parsed, which is read back as the line exactly where it has no `$`.
abbrev pub IsProbe : List Text → Type 0
IsProbe ws =
    ((rest : List Text) × (ws ≡ text "/console/inspect" ∷ rest))
    ⊎ (ws ≡ words parse_probe)
    ⊎ ((line : Text) × (ws
          ≡ words (script_command (text ":put [:parse " ++ string_literal line ++ text "]")))
        × Embeds line)

-- The session `s'` has sent what `s` had, and probes after it.
abbrev pub Probed : Session → Session → Type 0
Probed s s' = (added : List (List Text)) × (s'.sent ≡ s.sent ++ added) × All IsProbe added

inspect-IsProbe : (request path : Text) → IsProbe (words (inspect_command request path))
unfolding words trim_right_by
inspect-IsProbe request path = inl (_, refl)

probes-IsProbe : (probes : List Probe) → All IsProbe (probe_sentences probes)
probes-IsProbe [] = tt
probes-IsProbe (p ∷ probes) = (inspect-IsProbe p.request p.path, probes-IsProbe probes)

Probed-refl : (s : Session) → Probed s s
Probed-refl s = ([], sym (append-nil s.sent), tt)

All-join : (xs ys : List (List Text)) → All IsProbe xs → All IsProbe ys → All IsProbe (xs ++ ys)
All-join [] ys hx hy = hy
All-join (x ∷ xs) ys hx hy = (hx.0, All-join xs ys hx.1 hy)

Probed-trans : (s t u : Session) → Probed s t → Probed t u → Probed s u
Probed-trans s t u (a, e, h) (b, f, g) = (
  a ++ b,
  f ∙ ap (λ (x : List (List Text)). x ++ b) e ∙ append_assoc s.sent a b,
  All-join a b h g,
)

note_inspect-sent :
    (s : Session) (r : Result (List InspectNode)) → (note_inspect s r).0.sent ≡ s.sent
note_inspect-sent s (ok nodes) = refl
note_inspect-sent s (err e) = elim (Bool-cases (is_device e)) [
  | inl d ↦ rw d refl
  | inr d ↦ rw d refl
]

note_parse-sent : (s : Session) (r : Result Reply) → (note_parse s r).0.sent ≡ s.sent
note_parse-sent s (ok rep) = refl
note_parse-sent s (err e) = elim (Bool-cases (is_device e)) [
  | inl d ↦ rw d refl
  | inr d ↦ rw d refl
]

Probed-if :
    (s : Session) (b : Bool) (x y : Session × Option GoError)
    → Probed s x.0
    → Probed s y.0
    → Probed s (if b then x else y).0
Probed-if s true x y hx hy = hx
Probed-if s false x y hx hy = hy

Probed-if_session :
    (s : Session) (b : Bool) (x y : Pipeline × Option GoError)
    → Probed s x.0.session
    → Probed s y.0.session
    → Probed s (if b then x else y).0.session
Probed-if_session s true x y hx hy = hx
Probed-if_session s false x y hx hy = hy

module _ (format : Sentence → Text) (wire : Wire) where
  probe_inspect-Probed : (s : Session) → Probed s (probe_inspect format wire s).0
  unfolding probe_inspect inspect_nodes
  probe_inspect-Probed s =
      let (s1, r) = inspect_nodes format wire inspect_child (text "system") s in
      Probed-if s s.inspect_probed (s, none) (note_inspect s1 r) (Probed-refl s)
        (
          words (inspect_command inspect_child (text "system")) ∷ [],
          note_inspect-sent s1 r,
          (inspect-IsProbe inspect_child (text "system"), tt),
        )

  probe_parse-Probed : (s : Session) → Probed s (probe_parse format wire s).0
  unfolding probe_parse command
  probe_parse-Probed s =
      let (s1, r) = command format wire parse_probe s in
      Probed-if s s.parse_probed (s, none) (note_parse s1 r) (Probed-refl s)
        (words parse_probe ∷ [], note_parse-sent s1 r, (inr (inl refl), tt))

  note_ready-session :
      (p : Pipeline) (r : Session × Option GoError) → (note_ready format wire p r).0.session ≡ r.0
  note_ready-session p (s, some e) = refl
  note_ready-session p (s, none) = refl

  then_parse-Probed :
      (p : Pipeline) (r : Session × Option GoError)
      → Probed p.session r.0
      → Probed p.session (then_parse format wire p r).0.session
  then_parse-Probed p (s, some e) h = h
  then_parse-Probed p (s, none) h =
      Probed-trans p.session s (then_parse format wire p (s, none)).0.session h
        (rw (note_ready-session p (probe_parse format wire s)) (probe_parse-Probed s))

  ensure_run-Probed : (p : Pipeline) → Probed p.session (ensure_run format wire p).0.session
  unfolding ensure_run
  ensure_run-Probed p =
      Probed-if_session p.session p.ready (p, none)
        (then_parse format wire p (probe_inspect format wire p.session)) (Probed-refl p.session)
        (then_parse-Probed p (probe_inspect format wire p.session) (probe_inspect-Probed p.session))

  gate-Probed :
      (s : Session) (g : Gate1) (cmd : Command)
      → Probed s (after_commands s (Syntax.run g cmd []).0)
  gate-Probed s g cmd = elim (run_sends g cmd []) [
    | inl e ↦ rw e ([], refl, tt)
    | inr (e, back) ↦ rw e (_, refl, (inr (inr (rendered g cmd, refl, back)), tt))
  ]

  module _ (later now : ℕ) (cmd : Command) where
    validate-Probed :
        (p : Pipeline) → Probed p.session (validate format wire later now cmd p).0.session
    unfolding validate
    validate-Probed p =
        Probed-if_session p.session (is_empty cmd.script) _ _
          (
            _,
            refl,
            probes-IsProbe
                (Attributes.validate (session_device format wire p.session) later now
                  (some (session_inspects p.session)) cmd (recounted format wire p.store)).0.calls,
          )
          (gate-Probed p.session (session_gate format wire p.session) cmd)

    validated-Probed :
        (s : Session) (r : Pipeline × Option GoError)
        → Probed s r.0.session
        → Probed s (validated format wire later now r cmd).0.session
    validated-Probed s (p, some e) h = h
    validated-Probed s (p, none) h =
        Probed-trans s p.session (validate format wire later now cmd p).0.session h
          (validate-Probed p)

    -- Whatever the device answers and whatever `Client.Validate` returns, it sends nothing but inspect
    -- probes, the probe for `:parse`, and `:put [:parse …]` around the literal of a line, which by the
    -- reading of `Transport.Literal` is the line exactly where it has no `$`.
    pub validate_command_sends :
        (p : Pipeline) → Probed p.session (validate_command format wire later now cmd p).0.session
    unfolding validate_command
    validate_command_sends p =
        validated-Probed p.session (ensure_run format wire p) (ensure_run-Probed p)

    -- What `run_structured` does with the outcome of its validation.
    abbrev pub Guarded : Pipeline × Option GoError → Pipeline × Result Reply → Type 0
    Guarded (v, some e) r = r ≡ (v, err e)
    Guarded (v, none) (q, r) = q.session.sent ≡ v.session.sent ++ (words cmd ∷ [])

    then-Guarded :
        (r : Pipeline × Option GoError)
        → Guarded r (and_then format wire later now r (execute format wire later now cmd))
    unfolding command
    then-Guarded (p, some e) = refl
    then-Guarded (p, none) = refl

    after_ensure-Guarded :
        (r : Pipeline × Option GoError)
        → Guarded (validated format wire later now r cmd) (
            and_then format wire later now r (λ q.
              and_then format wire later now
                (validate format wire later now cmd q)
                (execute format wire later now cmd)))
    after_ensure-Guarded (p, some e) = refl
    after_ensure-Guarded (p, none) = then-Guarded (validate format wire later now cmd p)

    -- Where validation fails, `RunStructured` returns its error and has sent nothing more than
    -- `Validate` would have; where it succeeds, `RunStructured` sends the words of the command as one
    -- sentence after it, and nothing else.
    pub run_structured-Guarded :
        (p : Pipeline)
        → Guarded
            (validate_command format wire later now cmd p)
            (run_structured format wire later now cmd p)
    unfolding validate_command run_structured
    run_structured-Guarded p = after_ensure-Guarded (ensure_run format wire p)
