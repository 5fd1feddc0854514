-- ===== src/Ssh/Output/Ends.antt =====
-- The lines of a text, whatever their ends, and what trimming makes of a line, without the code's functions.
use goros.Common.{
  ℕ, Text, true, false, ◌&&◌, if◌then◌else◌, List, [], ◌∷◌, ◌++◌, is_empty, All, ◌≡◌, ◌≢◌, ◌⊎◌, inl,
  inr, refl, sym, ap, ◌∙◌, subst, arith, Bool-cases, ◌==◌, ==_iff, trim_right_by,
}
use goros.Ssh.Output.{replace_crlf, replace_cr, cons_first, split_lines, is_pad, trim_lines}

-- The text does not begin with a newline.
abbrev pub NoNewlineFirst : Text → Type 0
NoNewlineFirst [] = Unit
NoNewlineFirst (c ∷ s) = c ≢ 10

-- A line ends with a newline, a carriage return, or the two together, which end one line.
pub data LinesOf : Text → List Text → Type 0 where
  end : LinesOf [] ([] ∷ [])
  char :
      (c : ℕ) (s line : Text) (lines : List Text)
      → c ≢ 10
      → c ≢ 13
      → LinesOf s (line ∷ lines)
      → LinesOf (c ∷ s) ((c ∷ line) ∷ lines)
  newline : (s : Text) (lines : List Text) → LinesOf s lines → LinesOf (10 ∷ s) ([] ∷ lines)
  return :
      (s : Text) (lines : List Text)
      → NoNewlineFirst s
      → LinesOf s lines
      → LinesOf (13 ∷ s) ([] ∷ lines)
  both : (s : Text) (lines : List Text) → LinesOf s lines → LinesOf (13 ∷ 10 ∷ s) ([] ∷ lines)

abbrev pub source_lines : Text → List Text
source_lines s = split_lines (replace_cr (replace_crlf s))

some_line : (s : Text) (lines : List Text) → LinesOf s lines → lines ≢ []
some_line s lines end = λ e. cc (e)
some_line s lines (char c t line more a b h) = λ e. cc (e)
some_line s lines (newline t more h) = λ e. cc (e)
some_line s lines (return t more n h) = λ e. cc (e)
some_line s lines (both t more h) = λ e. cc (e)

-- A line behind a byte that ends none.
char_first :
    (c : ℕ) (s : Text) (lines : List Text)
    → c ≢ 10
    → c ≢ 13
    → LinesOf s lines
    → LinesOf (c ∷ s) (cons_first c lines)
char_first c s [] a b h = absurd (some_line s [] h refl)
char_first c s (line ∷ lines) a b h = char c s line lines a b h

-- The lines behind a byte, where the next is not taken with it.
abbrev behind : ℕ → List Text → List Text
behind c lines = if c == 13 then [] ∷ lines else if c == 10 then [] ∷ lines else cons_first c lines

behind-step :
    (c : ℕ) (s : Text) → split_lines (replace_cr (c ∷ s)) ≡ behind c (split_lines (replace_cr s))
unfolding split_lines replace_cr
behind-step c s = ground arith

behind-LinesOf :
    (c : ℕ) (s : Text) (lines : List Text)
    → (c ≡ 13 → NoNewlineFirst s)
    → LinesOf s lines
    → LinesOf (c ∷ s) (behind c lines)
behind-LinesOf c s lines n h = elim (Bool-cases (c == 13)) [
  | inl e ↦
      let p = (==_iff c 13).0 e in
      rw e (subst (λ x. LinesOf (x ∷ s) ([] ∷ lines)) (sym p) (return s lines (n p) h))
  | inr e ↦ elim (Bool-cases (c == 10)) [
    | inl f ↦
        rw (e, f)
          (subst (λ x. LinesOf (x ∷ s) ([] ∷ lines)) (sym ((==_iff c 10).0 f)) (newline s lines h))
    | inr f ↦
        rw (e, f)
          (char_first c s lines (λ p. cc (f, (==_iff c 10).1 p)) (λ p. cc (e, (==_iff c 13).1 p)) h)
  ]
]

crlf-step :
    (c d : ℕ) (s : Text)
    → replace_crlf (c ∷ d ∷ s)
      ≡ (if c == 13 && d == 10 then 10 ∷ replace_crlf s else c ∷ replace_crlf (d ∷ s))
unfolding replace_crlf
crlf-step c d s = refl

crlf_first :
    (c d : ℕ) (s : Text) (lines : List Text)
    → c ≡ 13
    → d ≡ 10
    → LinesOf s lines
    → LinesOf (c ∷ d ∷ s) ([] ∷ lines)
crlf_first c d s lines p q h =
    subst (λ x. LinesOf (x ∷ d ∷ s) ([] ∷ lines)) (sym p)
      (subst (λ y. LinesOf (13 ∷ y ∷ s) ([] ∷ lines)) (sym q) (both s lines h))

pub source_lines-LinesOf : (s : Text) → LinesOf s (source_lines s)
unfolding replace_crlf
source_lines-LinesOf [] = unfold replace_cr split_lines in end
source_lines-LinesOf (c ∷ []) =
    subst (LinesOf (c ∷ [])) (sym (behind-step c []))
      (behind-LinesOf c [] _ (λ p. tt) (unfold replace_cr split_lines in end))
source_lines-LinesOf (c ∷ d ∷ s) = elim (Bool-cases (c == 13 && d == 10)) [
  | inl e ↦
      let (p, q) : (c ≡ 13) × (d ≡ 10) = (ground arith, ground arith) in
      rw e (
        subst (LinesOf (c ∷ d ∷ s)) (sym (behind-step 10 (replace_crlf s)))
          (crlf_first c d s _ p q (source_lines-LinesOf s)))
  | inr e ↦ rw e (
      subst (LinesOf (c ∷ d ∷ s)) (sym (behind-step c (replace_crlf (d ∷ s))))
        (behind-LinesOf c (d ∷ s) _ (λ p q. ground arith) (source_lines-LinesOf (d ∷ s))))
]

-- The line is the trimmed line and spaces and tabs behind it, and the trimmed line ends in neither.
abbrev pub Pads : Text → Type 0
Pads pads = All (λ c. (c ≡ 32) ⊎ (c ≡ 9)) pads

abbrev pub EndsPlain : Text → Type 0
EndsPlain [] = Unit
EndsPlain (c ∷ []) = (c ≢ 32) × (c ≢ 9)
EndsPlain (c ∷ d ∷ s) = EndsPlain (d ∷ s)

abbrev pub TrimmedTo : Text → Text → Type 0
TrimmedTo line out = (pads : Text) × (line ≡ out ++ pads) × Pads pads × EndsPlain out

abbrev pub AllTrimmed : List Text → List Text → Type 0
AllTrimmed [] outs = outs ≡ []
AllTrimmed (line ∷ lines) [] = ⊥
AllTrimmed (line ∷ lines) (out ∷ outs) = TrimmedTo line out × AllTrimmed lines outs

no_text : (s : Text) → is_empty s ≡ true → s ≡ []
no_text [] e = refl
no_text (c ∷ s) e = absurd (cc (e))

pad_byte : (c : ℕ) → is_pad c ≡ true → (c ≡ 32) ⊎ (c ≡ 9)
pad_byte c e = ground arith

EndsPlain-cons :
    (c : ℕ) (out : Text) → (is_empty out && is_pad c) ≡ false → EndsPlain out → EndsPlain (c ∷ out)
EndsPlain-cons c [] e h = (λ p. ground arith, λ p. ground arith)
EndsPlain-cons c (d ∷ out) e h = h

trim-TrimmedTo : (line : Text) → TrimmedTo line (trim_right_by is_pad line)
unfolding trim_right_by
trim-TrimmedTo [] = ([], refl, tt, tt)
trim-TrimmedTo (c ∷ line) = elim (Bool-cases (is_empty (trim_right_by is_pad line) && is_pad c)) [
  | inl e ↦
      let (pads, p, all, plain) = trim-TrimmedTo line in
      let nothing = no_text (trim_right_by is_pad line) (ground arith) in
      let only : line ≡ pads = p ∙ ap (λ (t : Text). t ++ pads) nothing in
      rw e (c ∷ line, refl, (pad_byte c (ground arith), subst Pads (sym only) all), tt)
  | inr e ↦
      let (pads, p, all, plain) = trim-TrimmedTo line in
      rw e (
        pads,
        ap (λ (l : Text). c ∷ l) p,
        all,
        EndsPlain-cons c (trim_right_by is_pad line) e plain,
      )
]

pub trim_lines-AllTrimmed : (lines : List Text) → AllTrimmed lines (trim_lines lines)
unfolding trim_lines
trim_lines-AllTrimmed [] = refl
trim_lines-AllTrimmed (line ∷ lines) = (trim-TrimmedTo line, trim_lines-AllTrimmed lines)
