-- ===== src/Ssh/Session/Gate.antt =====
-- `Validate` over `Run`: what the console gate makes of the SSH client.
use goros.Common.{
  ℕ, Text, text, text_eq, true, false, List, [], ◌∷◌, none, some, is_empty, ◌≡◌, ◌↔◌, inl, inr,
  refl, sym, ap, ◌∙◌,
}
use goros.Common.Assoc.{lookup, get_or_empty}
use goros.Roserr.{Result, ok, err}
use goros.Transport.{Command, Reply, ret, reply_re, script_command, console_cli}
use goros.Gate.Quotes.{has_unbalanced_quotes}
use goros.Gate.Classify.{classify}
use goros.Gate.Syntax.{
  Gate1, rendered, parse_script, console_command, new_console_gate, validate_console,
}
use goros.Gate.Syntax.Laws.{Accepted, run_accepts_iff}
use goros.Ssh.Dial.{SshClient}
use goros.Ssh.Session.{Call, Ran, run_open, as_result, validate_line}

-- A text as the reply that the adapter makes of it.
abbrev text_reply : Text → Reply
text_reply out = record {
  kind = reply_re;
  attributes = (text "ret", out) ∷ [];
  tag = [];
  raw_words = [];
}

abbrev adapted : Result Text → Result Reply
adapted (ok out) = ok (text_reply out)
adapted (err e) = err e

console_answer :
    (console : Text → Result Text) (b : ℕ) (s : Text) (r : Result Text)
    → console (b ∷ s) ≡ r
    → console_command console (script_command (b ∷ s)) ≡ adapted r
unfolding console_command
console_answer console b s (ok out) e = rw (e, console_command) refl
console_answer console b s (err x) e = rw (e, console_command) refl

ret-text_reply : (out : Text) → ret (text_reply out) ≡ out
unfolding lookup get_or_empty text_eq
ret-text_reply out = refl

rendered_line :
    (console : List Command → Text → Result Text) (line : Text)
    → is_empty line ≡ false
    → rendered (new_console_gate console none) (script_command line) ≡ line
unfolding console_cli
rendered_line console [] h = absurd (cc)
rendered_line console (b ∷ line) h = refl

-- The run gave a text without an error.
adapted_ok :
    (ran : Ran) (rep : Reply)
    → adapted (as_result ran) ≡ ok rep
    → (out : Text) × (ran ≡ (out, none)) × (rep ≡ text_reply out)
adapted_ok (out, none) rep e = (out, refl, cc)
adapted_ok (out, some x) rep e = absurd (cc)

module _ {Conn : Type 0} (w : List Command → Call Conn) (c : SshClient Conn) (conn : Conn)
    (line : Text) (calls : List Command) where
  abbrev gate : Gate1
  gate = new_console_gate (λ before l. as_result (run_open (w before) c l conn)) none

  -- The device's parser has taken the line: `Run` of the probe gives a text without an error, and the
  -- text classifies as valid.
  abbrev pub Parsed : Type 0
  Parsed =
      (has_unbalanced_quotes line ≡ false)
      × ((out : Text) × (run_open (w calls) c (parse_script line) conn ≡ (out, none))
          × ((classify out).valid ≡ true))

  probe_answer :
      (s : Text)
      → gate.transport calls (script_command (parse_script s))
        ≡ adapted (as_result (run_open (w calls) c (parse_script s) conn))
  probe_answer s = console_answer (λ l. as_result (run_open (w calls) c l conn)) _ _ _ refl

  parsed : is_empty line ≡ false → Accepted gate (script_command line) calls → Parsed
  parsed h (inl skip) = absurd (cc)
  parsed h (inr (_, u, (rep, e, v))) =
      let same = rendered_line (λ before l. as_result (run_open (w before) c l conn)) line h in
      let (out, ran, told) =
        adapted_ok (run_open (w calls) c (parse_script line) conn) rep
          (sym (probe_answer line) ∙ (rw same at e)) in
      (
        rw same at u,
        (
          out,
          ran,
          ap (λ (t : Text). (classify t).valid) (sym (ap ret told ∙ ret-text_reply out)) ∙ v,
        ),
      )

  accepted_ssh : is_empty line ≡ false → Parsed → Accepted gate (script_command line) calls
  accepted_ssh h (u, (out, ran, v)) =
      let same = rendered_line (λ before l. as_result (run_open (w before) c l conn)) line h in
      rw same (
        inr (
          refl,
          u,
          (
            text_reply out,
            probe_answer line ∙ ap (λ r. adapted (as_result r)) ran,
            rw (ret-text_reply out) v,
          ),
        ))

  -- `Client.Validate` of a line that is not empty returns no error exactly when the line's quotes are
  -- balanced, and `Run` of the `:parse` probe for the line gives a text without an error that the
  -- classifier takes for valid.
  pub validate_line_accepts_iff :
      is_empty line ≡ false → ((validate_line w c conn line calls).1 ≡ none) ↔ Parsed
  unfolding validate_line validate_console
  validate_line_accepts_iff h =
      let (to, from) = run_accepts_iff gate (script_command line) calls in
      (λ e. parsed h (to e), λ p. from (accepted_ssh h p))
