-- ===== src/Session/Probes.antt =====
-- What a session's probes find out, and what a rejected command becomes.
use goros.Common.{
  Text, text, text_eq, text_eq_refl, true, false, List, [], ◌∷◌, ◌++◌, none, some, if◌then◌else◌,
  ◌≡◌, refl, sym, ap, ◌∙◌, ◌↔◌, inl, inr, arith, Bool-cases,
}
use goros.Roserr.{GoError, Result, ok, err, code_command_failed, code_session_closed}
use goros.Roserr.Chain.{is_code, as_device}
use goros.Proto.Sentence.{Sentence}
use goros.Client.Reply.{fatal_sentence}
use goros.Client.Reply as Legacy
use goros.Client.Translate.{translate_error}
use goros.Transport.{Command, words, InspectNode, inspect_child}
use goros.Session.{
  Wire, Session, command, inspect_command, inspect_nodes, note_inspect, is_device, probe_inspect,
  session_inspects, rows_of, translated,
}

translate_error-device :
    (format : Sentence → Text) (e : GoError) (sen : Sentence)
    → as_device e ≡ some sen
    → (is_code
          (if text_eq sen.word fatal_sentence then code_session_closed else code_command_failed)
          (translate_error format e)
        ≡ true)
      × (as_device (translate_error format e) ≡ some sen)
unfolding translate_error is_code as_device
translate_error-device format e sen h =
    let code =
      if text_eq sen.word fatal_sentence then code_session_closed else code_command_failed in
    rw (translate_error, h) (rw (text_eq_refl code) refl, h)

translate_error-other :
    (format : Sentence → Text) (e : GoError) → as_device e ≡ none → translate_error format e ≡ e
unfolding translate_error
translate_error-other format e h = rw (translate_error, h) refl

module _ (format : Sentence → Text) (wire : Wire) (s : Session) where
  -- A command that the device rejects fails with the code for a closed session where the sentence is
  -- `!fatal` and the code for a failed command otherwise, and the device's sentence is found in the
  -- error. The command was sent as one sentence.
  pub command_rejected :
      (cmd : Command) (e : GoError) (sen : Sentence)
      → wire s.sent (words cmd) ≡ err e
      → as_device e ≡ some sen
      → (failure : GoError) × (command format wire cmd s
          ≡ (record s { sent = s.sent ++ (words cmd ∷ []) }, err failure))
        × (is_code
              (if text_eq sen.word fatal_sentence then code_session_closed else code_command_failed)
              failure
            ≡ true)
        × (as_device failure ≡ some sen)
  unfolding command
  command_rejected cmd e sen answer found =
      let (coded, kept) = translate_error-device format e sen found in
      (translate_error format e, rw answer refl, coded, kept)

  -- The sentence of the first inspect probe.
  abbrev pub first_probe : List Text
  first_probe = words (inspect_command inspect_child (text "system"))

  -- The first probe: one sentence, and what its answer tells.
  probe_inspect_fresh :
      s.inspect_probed ≡ false
      → probe_inspect format wire s
        ≡ note_inspect
            (inspect_nodes format wire inspect_child (text "system") s).0
            (rows_of (translated format wire (wire s.sent first_probe)))
  unfolding probe_inspect inspect_nodes
  probe_inspect_fresh fresh = ground arith

  inspects_of_answer :
      (r : Result Legacy.Reply)
      → s.supports_inspect ≡ false
      → s.inspect_probed ≡ false
      → (session_inspects
            (note_inspect
              (inspect_nodes format wire inspect_child (text "system") s).0
              (rows_of (translated format wire r))).0
          ≡ true)
        ↔ ((rep : Legacy.Reply) × (r ≡ ok rep))
  unfolding inspect_nodes
  inspects_of_answer (ok rep) unset fresh = (λ h. (rep, refl), λ h. refl)
  inspects_of_answer (err e) unset fresh =
      elim (Bool-cases (is_device (translate_error format e))) [
        | inl d ↦ rw d (λ h. absurd (cc (h, unset)), λ (rep, h). absurd (cc h))
        | inr d ↦ rw d (λ h. absurd (ground arith), λ (rep, h). absurd (cc h))
      ]

  -- A session that was not probed serves /console/inspect, after the probe, exactly when the device
  -- answered the probe without an error.
  pub probe_inspect_iff :
      s.inspect_probed ≡ false
      → s.supports_inspect ≡ false
      → (session_inspects (probe_inspect format wire s).0 ≡ true)
        ↔ ((rep : Legacy.Reply) × (wire s.sent first_probe ≡ ok rep))
  probe_inspect_iff fresh unset =
      rw (probe_inspect_fresh fresh) (inspects_of_answer (wire s.sent first_probe) unset fresh)

settled :
    (s : Session) (r : Result (List InspectNode))
    → (note_inspect s r).1 ≡ none
    → (note_inspect s r).0.inspect_probed ≡ true
settled s (ok nodes) h = refl
settled s (err e) h = elim (Bool-cases (is_device e)) [
  | inl d ↦ rw d refl
  | inr d ↦ absurd (cc (rw d at h))
]

probed :
    (format : Sentence → Text) (wire : Wire) (s : Session)
    → s.inspect_probed ≡ true
    → probe_inspect format wire s ≡ (s, none)
unfolding probe_inspect
probed format wire s h = ground arith

module _ (format : Sentence → Text) (wire wire' : Wire) (s : Session) where
  -- Once `ProbeInspect` has returned without an error, another call sends nothing, changes nothing and
  -- returns no error, whatever the device would answer.
  pub probe_inspect_again :
      (probe_inspect format wire s).1 ≡ none
      → probe_inspect format wire' (probe_inspect format wire s).0
        ≡ ((probe_inspect format wire s).0, none)
  probe_inspect_again h = elim (Bool-cases s.inspect_probed) [
    | inl p ↦
        ap (λ x. probe_inspect format wire' x.0) (probed format wire s p)
        ∙ probed format wire' s p
        ∙ ap (λ x. (x.0, none)) (sym (probed format wire s p))
    | inr p ↦
        let noted = probe_inspect_fresh format wire s p in
        probed format wire' (probe_inspect format wire s).0 (rw noted (settled _ _ (rw noted at h)))
  ]
