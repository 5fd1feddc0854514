-- ===== src/Gate/Quotes.antt =====
-- `StringLiteral` and `HasUnbalancedQuotes` of gate/gate1.go. The source ranges over runes; every
-- character it asks for is ASCII, so the bytes tell the same.
use goros.Common.{
  ℕ, ◌+◌, ◌%◌, Text, Bool, true, false, ◌||◌, [], ◌∷◌, ◌++◌, if◌then◌else◌, ◌==◌, ◌≡◌, refl, arith,
  append_assoc, Lacks, ◌↔◌, Bool-cases, ==_iff, inl, inr, ◌∙◌, sym,
}
use goros.Transport.{replace_byte}
use goros.Transport.Literal.{
  Reading, closed, unended, evaluated, not_literal, prepend, read_body, read_literal,
}

unfoldable pub string_literal : Text → Text
string_literal s =
    b'"' ∷ replace_byte b'"' (92 ∷ b'"' ∷ []) (replace_byte 92 (92 ∷ 92 ∷ []) s) ++ (b'"' ∷ [])

-- The counts of unescaped double and single quotes.
unfoldable pub count_quotes : Bool → ℕ → ℕ → Text → ℕ × ℕ
count_quotes escaped dq sq [] = (dq, sq)
count_quotes true dq sq (r ∷ s) = count_quotes false dq sq s
count_quotes false dq sq (r ∷ s) =
    count_quotes (r == 92) (if r == b'"' then dq + 1 else dq) (if r == 39 then sq + 1 else sq) s

unfoldable pub has_unbalanced_quotes : Text → Bool
unfolding count_quotes
has_unbalanced_quotes s = let (dq, sq) = count_quotes false 0 0 s in dq % 2 == 1 || sq % 2 == 1

-- What is read behind the opening quote of a text's literal.
abbrev body : Text → Text → Reading
body s rest =
    read_body false
      (replace_byte b'"' (92 ∷ b'"' ∷ []) (replace_byte 92 (92 ∷ 92 ∷ []) s) ++ (b'"' ∷ rest))

body_step :
    (x : ℕ) (s rest : Text)
    → body (x ∷ s) rest ≡ (if x == 36 then evaluated else prepend x (body s rest))
unfolding read_body replace_byte
body_step x s rest = ground arith

literal_body : (s rest : Text) → Lacks 36 s → body s rest ≡ closed s rest
unfolding read_body replace_byte
literal_body [] rest h = refl
literal_body (x ∷ s) rest h = ground (arith, body_step x s rest, literal_body s rest h.1)

prepend_closed :
    (x : ℕ) (s rest : Text) (r : Reading) → prepend x r ≡ closed (x ∷ s) rest → r ≡ closed s rest
prepend_closed x s rest (closed v u) h = cc
prepend_closed x s rest unended h = absurd (cc)
prepend_closed x s rest evaluated h = absurd (cc)
prepend_closed x s rest not_literal h = absurd (cc)

-- A literal that is read back has no substitution.
body_plain : (s rest : Text) → body s rest ≡ closed s rest → Lacks 36 s
body_plain [] rest h = tt
body_plain (x ∷ s) rest h = elim (Bool-cases (x == 36)) [
  | inl e ↦ absurd (cc (rw e at (body_step x s rest), h))
  | inr e ↦
      let step : body (x ∷ s) rest ≡ prepend x (body s rest) = rw e at (body_step x s rest) in
      (
        λ p. cc (e, (==_iff x 36).1 p),
        body_plain s rest (prepend_closed x s rest (body s rest) (sym step ∙ h)),
      )
]

-- The literal of a text is read back as the text, whatever follows it, exactly where the text has no
-- `$`: such a text cannot end the literal that it is embedded in early, or leave it open.
pub read_literal-string_literal :
    (s rest : Text) → (read_literal (string_literal s ++ rest) ≡ closed s rest) ↔ Lacks 36 s
unfolding read_literal string_literal
read_literal-string_literal s rest =
    rw append_assoc ((λ h. body_plain s rest h, λ h. literal_body s rest h))
