-- ===== src/Gate/Syntax/Laws.antt =====
-- What the syntax gate sends, and what it accepts.
use goros.Common.{
  Text, text, true, false, List, [], ◌∷◌, ◌++◌, none, some, ◌≡◌, refl, ap, ◌⊎◌, inl, inr, ◌↔◌,
  Bool-cases, Lacks,
}
use goros.Roserr.{Result, ok, err}
use goros.Transport.{Command, Reply, ret, script_command}
use goros.Transport.Literal.{closed, read_literal}
use goros.Gate.Quotes.{string_literal, has_unbalanced_quotes, read_literal-string_literal}
use goros.Gate.Classify.{classify}
use goros.Gate.Syntax.{Gate1, rendered, parse_script, unbalanced, verdict, skips, run}

-- A verdict accepts exactly the replies whose text classifies as valid.
verdict_accepts :
    (cmd : Command) (r : Result Reply)
    → verdict cmd r ≡ none
    → (rep : Reply) × (r ≡ ok rep) × ((classify (ret rep)).valid ≡ true)
verdict_accepts cmd (err e) h = absurd (cc)
verdict_accepts cmd (ok rep) h = elim (Bool-cases (classify (ret rep)).valid) [
  | inl v ↦ (rep, refl, v)
  | inr v ↦ absurd (cc (rw v at h))
]

accepts_verdict :
    (cmd : Command) (r : Result Reply) (rep : Reply)
    → r ≡ ok rep
    → (classify (ret rep)).valid ≡ true
    → verdict cmd r ≡ none
accepts_verdict cmd r rep e v = rw e (rw v refl)

-- The literal of the line, between the brackets of the script, is read back as the line exactly where
-- the line has no `$`.
abbrev pub Embeds : Text → Type 0
Embeds line =
    (read_literal (string_literal line ++ text "]") ≡ closed line (text "]")) ↔ Lacks b'$' line

module _ (g : Gate1) (cmd : Command) (calls : List Command) where
  -- The only command that the gate sends: a script around the rendered line.
  abbrev pub probe : Command
  probe = script_command (parse_script (rendered g cmd))

  skipped : skips g.supports_parse ≡ true → run g cmd calls ≡ (calls, none)
  unfolding run
  skipped e = rw e refl

  refused :
      skips g.supports_parse ≡ false
      → has_unbalanced_quotes (rendered g cmd) ≡ true
      → run g cmd calls ≡ (calls, some (unbalanced cmd))
  unfolding run
  refused e u = rw e (rw u refl)

  asked :
      skips g.supports_parse ≡ false
      → has_unbalanced_quotes (rendered g cmd) ≡ false
      → run g cmd calls ≡ (calls ++ (probe ∷ []), verdict cmd (g.transport calls probe))
  unfolding run
  asked e u = rw e (rw u refl)

  -- What makes the gate accept a command: it does not apply, or the quotes of the rendered line are
  -- balanced and the device answers the probe with a text that classifies as valid.
  abbrev pub Accepted : Type 0
  Accepted =
      (skips g.supports_parse ≡ true)
      ⊎ ((skips g.supports_parse ≡ false)
          × (has_unbalanced_quotes (rendered g cmd) ≡ false)
          × ((rep : Reply) × (g.transport calls probe ≡ ok rep)
              × ((classify (ret rep)).valid ≡ true)))

  accepted : (run g cmd calls).1 ≡ none → Accepted
  accepted h = elim (Bool-cases (skips g.supports_parse)) [
    | inl s ↦ inl s
    | inr s ↦ elim (Bool-cases (has_unbalanced_quotes (rendered g cmd))) [
      | inl u ↦ absurd (cc (refused s u))
      | inr u ↦ inr (s, u, verdict_accepts cmd (g.transport calls probe) (cc (asked s u)))
    ]
  ]

  accepting : Accepted → (run g cmd calls).1 ≡ none
  accepting (inl s) = cc (skipped s)
  accepting (inr (s, u, (rep, e, v))) =
      cc (asked s u, accepts_verdict cmd (g.transport calls probe) rep e v)

  -- `Gate1.Run` returns no error exactly when the session cannot parse, or the rendered command has
  -- balanced quotes and the device's parser answers its probe with a text that classifies as valid.
  pub run_accepts_iff : ((run g cmd calls).1 ≡ none) ↔ Accepted
  run_accepts_iff = (accepted, accepting)

  -- `Gate1.Run` sends nothing, or one script: `:put [:parse `, the literal of the rendered command, and
  -- `]`. By the reading of `Transport.Literal` the literal is the rendered command, with `]` behind it,
  -- exactly where the command has no `$`.
  pub run_sends :
      ((run g cmd calls).0 ≡ calls)
      ⊎ (((run g cmd calls).0
            ≡ calls
              ++ (script_command
                    (text ":put [:parse " ++ string_literal (rendered g cmd) ++ text "]")
                  ∷ []))
          × Embeds (rendered g cmd))
  run_sends = elim (Bool-cases (skips g.supports_parse)) [
    | inl s ↦ inl (ap (λ r. r.0) (skipped s))
    | inr s ↦ elim (Bool-cases (has_unbalanced_quotes (rendered g cmd))) [
      | inl u ↦ inl (ap (λ r. r.0) (refused s u))
      | inr u ↦
          inr (ap (λ r. r.0) (asked s u), read_literal-string_literal (rendered g cmd) (text "]"))
    ]
  ]
