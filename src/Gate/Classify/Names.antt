-- ===== src/Gate/Classify/Names.antt =====
-- The classifier on the messages that name an attribute.
use goros.Common.{
  inl, inr, ◌∙◌, Option-cases, ℕ, Text, text, Bool, true, false, [], ◌∷◌, ◌++◌, Option, none, some,
  ◌≡◌, refl, arith, ◌==◌, Lacks,
}
use goros.Roserr.{Code, code_validation_unknown_attribute}
use goros.Gate.Classify.{
  ClassifyResult, or_else, strip_fold, strip, skip_blanks, skip_spaces, some_spaces, some_word,
  at_lines, bad_parameter, wrapped_bad_param, bad_param, syntax_phrase, wrapped_syntax, bare_syntax,
  line_col, apply_position, classify, rejected,
}

wrapped_test :
    (classify (text "(evl bad parameter bogus (line 1 column 24))")).attribute ≡ text "bogus"
unfolding classify at_lines wrapped_bad_param strip_fold skip_blanks some_spaces some_word
    apply_position line_col strip
wrapped_test = refl

wrapped_col : (classify (text "  expected end of command (line 1 column 24)")).col ≡ 24
unfolding classify at_lines wrapped_bad_param bad_param wrapped_syntax bare_syntax syntax_phrase
    strip_fold skip_blanks some_spaces some_word apply_position line_col strip
wrapped_col = refl

module _ {ℓ} {A : Type ℓ} (f : Text → Option A) where
  no_more_lines : (s : Text) → Lacks 10 s → at_lines f false s ≡ none
  unfolding at_lines
  no_more_lines [] h = refl
  no_more_lines (c ∷ s) h = ground (arith, no_more_lines s)

  or_none : (o : Option A) → or_else o none ≡ o
  or_none none = refl
  or_none (some a) = refl

  -- A text of one line is matched at its start alone.
  one_line : (c : ℕ) (s : Text) → Lacks 10 (c ∷ s) → at_lines f true (c ∷ s) ≡ f (c ∷ s)
  unfolding at_lines
  one_line c s h =
      let plain : (c == 10) ≡ false = ground arith in
      rw plain (rw (no_more_lines s h.1) (or_none (f (c ∷ s))))

position_keeps :
    (res : ClassifyResult) (t : Text)
    → ((apply_position res t).valid ≡ res.valid)
      × ((apply_position res t).code ≡ res.code)
      × ((apply_position res t).attribute ≡ res.attribute)
      × ((apply_position res t).message ≡ res.message)
unfolding apply_position
position_keeps res t = (ground arith, ground arith, ground arith, ground arith)

abbrev pub is_none {ℓ} : {A : Type ℓ} → Option A → Bool
is_none none = true
is_none (some a) = false

-- The attribute that a report names, when there is one.
abbrev pub named : Option Text → Text
named none = []
named (some name) = name

rejected_lem :
    (code : Code) (name t : Text)
    → ((rejected code name t).valid ≡ false) × ((rejected code name t).attribute ≡ name)
rejected_lem code name t =
    let kept =
      position_keeps
        (record { valid = false; code = code; attribute = name; line = 0; col = 0; message = t })
        t in
    (kept.0, kept.2)

Lacks-evl : (rest : Text) → Lacks 10 rest → Lacks 10 (text "(evl " ++ rest)
Lacks-evl rest h = (ground arith, (ground arith, (ground arith, (ground arith, (ground arith, h)))))

matchers_evl :
    (rest : Text)
    → (wrapped_bad_param (text "(evl " ++ rest) ≡ bad_parameter (skip_spaces rest))
      × ((wrapped_syntax (text "(evl " ++ rest) ≡ none)
          × ((bad_param (text "(evl " ++ rest) ≡ none)
              × (bare_syntax (text "(evl " ++ rest) ≡ none)))
unfolding wrapped_bad_param wrapped_syntax bad_param bare_syntax syntax_phrase bad_parameter
    skip_blanks strip_fold some_spaces
matchers_evl rest = (refl, (refl, (refl, refl)))

-- An answer of one line that echoes an evaluated expression is valid unless the expression, its leading
-- spaces left out, reports a bad parameter; then it is rejected with the attribute that the report names.
pub classify_evl :
    (rest : Text)
    → Lacks 10 rest
    → ((classify (text "(evl " ++ rest)).valid ≡ is_none (bad_parameter (skip_spaces rest)))
      × ((classify (text "(evl " ++ rest)).attribute ≡ named (bad_parameter (skip_spaces rest)))
unfolding classify
classify_evl rest h =
    let whole = Lacks-evl rest h in
    let m = matchers_evl rest in
    let first = one_line wrapped_bad_param 40 (text "evl " ++ rest) whole ∙ m.0 in
    let second = one_line wrapped_syntax 40 (text "evl " ++ rest) whole ∙ m.1.0 in
    let third = one_line bad_param 40 (text "evl " ++ rest) whole ∙ m.1.1.0 in
    let fourth = one_line bare_syntax 40 (text "evl " ++ rest) whole ∙ m.1.1.1 in
    elim (Option-cases (bad_parameter (skip_spaces rest))) [
      | inl e ↦ rw (classify, first ∙ e, e, second, third, fourth) (refl, refl)
      | inr (name, e) ↦
          rw (classify, first ∙ e, e)
            (rejected_lem code_validation_unknown_attribute name (text "(evl " ++ rest))
    ]
