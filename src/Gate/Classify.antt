-- ===== src/Gate/Classify.antt =====
-- `PureSyntaxClassifier.Classify` of gate/gate1.go with its regular expressions, each written as the
-- function that finds its leftmost match. Case is folded for ASCII letters.
pub mod Names
use goros.Common.{
  ℕ, zero, suc, ◌+◌, ◌-◌, ◌*◌, ◌^◌, Text, text, Bool, true, false, ◌||◌, ◌&&◌, List, [], ◌∷◌, ◌++◌,
  Option, none, some, if◌then◌else◌, is_empty, leb, ltb, ◌==◌,
}
use goros.Roserr.{Code, code_validation_syntax, code_validation_unknown_attribute}

pub record ClassifyResult : Type 0 where
  pub valid : Bool
  pub code : Code
  pub attribute : Text
  pub line : ℕ
  pub col : ℕ
  pub message : Text

infixl 5 ◌>>=◌
abbrev ◌>>=◌ {ℓ κ} : {A : Type ℓ} {B : Type κ} → Option A → (A → Option B) → Option B
none >>= f = none
some a >>= f = f a

abbrev pub or_else {ℓ} : {A : Type ℓ} → Option A → Option A → Option A
or_else none b = b
or_else (some a) b = some a

abbrev lower : ℕ → ℕ
lower c = if leb 65 c && leb c 90 then c + 32 else c

-- A literal under `(?i)`, and what follows it.
unfoldable pub strip_fold : Text → Text → Option Text
strip_fold [] s = some s
strip_fold (p ∷ ps) [] = none
strip_fold (p ∷ ps) (c ∷ s) = if lower p == lower c then strip_fold ps s else none

-- A literal as it is.
unfoldable pub strip : Text → Text → Option Text
strip [] s = some s
strip (p ∷ ps) [] = none
strip (p ∷ ps) (c ∷ s) = if p == c then strip ps s else none

-- `[ \t]*`, before something that is neither
unfoldable pub skip_blanks : Text → Text
skip_blanks [] = []
skip_blanks (c ∷ s) = let rest = skip_blanks s in if c == 32 || c == 9 then rest else c ∷ s

-- `\s`
abbrev pub is_regex_space : ℕ → Bool
is_regex_space c = c == 9 || c == 10 || c == 12 || c == 13 || c == 32

unfoldable pub skip_spaces : Text → Text
skip_spaces [] = []
skip_spaces (c ∷ s) = let rest = skip_spaces s in if is_regex_space c then rest else c ∷ s

-- `\s+`, before something that is no space
unfoldable pub some_spaces : Text → Option Text
unfolding skip_spaces
some_spaces [] = none
some_spaces (c ∷ s) = if is_regex_space c then some (skip_spaces s) else none

unfoldable pub take_word : Text → Text
take_word [] = []
take_word (c ∷ s) = let rest = take_word s in if is_regex_space c then [] else c ∷ rest

-- `(\S+)`
unfoldable pub some_word : Text → Option Text
unfolding take_word
some_word s = let w = take_word s in if is_empty w then none else some w

-- `(?m)^`: the first match among those at the start of the text and behind each newline.
unfoldable pub at_lines {ℓ} : {A : Type ℓ} → (Text → Option A) → Bool → Text → Option A
at_lines f start [] = if start then f [] else none
at_lines f start (c ∷ s) =
    let rest = at_lines f (c == 10) s in if start then or_else (f (c ∷ s)) rest else rest

unfoldable pub bad_parameter : Text → Option Text
bad_parameter s = do
  after ← strip_fold (text "bad parameter") s
  word ← some_spaces after
  some_word word

-- `wrappedBadParamRe` at a line's start, with its group.
unfoldable pub wrapped_bad_param : Text → Option Text
unfolding bad_parameter
wrapped_bad_param s = do
  after ← strip_fold (text "(evl") (skip_blanks s)
  inner ← some_spaces after
  bad_parameter inner

-- `badParamRe` at a line's start, with its group.
unfoldable pub bad_param : Text → Option Text
unfolding bad_parameter
bad_param s = bad_parameter (skip_blanks s)

-- `syntax error|bad command name|expected`
unfoldable pub syntax_phrase : Text → Option Text
syntax_phrase s =
    or_else (strip_fold (text "syntax error") s)
      (or_else (strip_fold (text "bad command name") s) (strip_fold (text "expected") s))

-- `[^()]*` and then a phrase
unfoldable pub phrase_within : Text → Option Text
phrase_within [] = syntax_phrase []
phrase_within (c ∷ s) =
    let rest = phrase_within s in
    or_else (syntax_phrase (c ∷ s)) (if c == b'(' || c == b')' then none else rest)

-- `wrappedSyntaxRe` and `syntaxRe` at a line's start.
unfoldable pub wrapped_syntax : Text → Option Text
unfolding phrase_within
wrapped_syntax s = do inner ← strip_fold (text "(<%") (skip_blanks s); phrase_within inner

unfoldable pub bare_syntax : Text → Option Text
bare_syntax s = syntax_phrase (skip_blanks s)

abbrev is_digit : ℕ → Bool
is_digit c = leb b'0' c && leb c b'9'

-- `(\d+)` and what follows it; `strconv.Atoi` stops at the largest int.
unfoldable pub take_digits : Bool → ℕ → Text → Option (ℕ × Text)
take_digits found n [] = if found then some (n, []) else none
take_digits found n (c ∷ s) =
    let more = take_digits true (n * 10 + (c - 48)) s in
    if is_digit c then more else if found then some (n, c ∷ s) else none

abbrev clip : ℕ → ℕ
clip n = if ltb n (2 ^ 63) then n else 2 ^ 63 - 1

-- `lineColRe` at the start of the text.
unfoldable pub line_col_here : Text → Option (ℕ × ℕ)
unfolding take_digits
line_col_here s = do
  after ← strip (text "(line ") s
  (l, after_line) ← take_digits false 0 after
  column ← strip (text " column ") after_line
  (c, after_col) ← take_digits false 0 column
  closed ← strip (text ")") after_col
  some (clip l, clip c)

unfoldable pub line_col : Text → Option (ℕ × ℕ)
unfolding line_col_here
line_col [] = none
line_col (c ∷ s) = or_else (line_col_here (c ∷ s)) (line_col s)

-- `applyPosition`
unfoldable pub apply_position : ClassifyResult → Text → ClassifyResult
apply_position res ret = elim (line_col ret) [
  | none ↦ res
  | some p ↦ record res { line = p.0; col = p.1 }
]

abbrev valid_result : Text → ClassifyResult
valid_result ret = record {
  valid = true;
  code = [];
  attribute = [];
  line = 0;
  col = 0;
  message = ret;
}

abbrev pub rejected : Code → Text → Text → ClassifyResult
rejected code attribute ret =
    apply_position
      (record {
        valid = false;
        code = code;
        attribute = attribute;
        line = 0;
        col = 0;
        message = ret;
      })
      ret

unfoldable pub classify : Text → ClassifyResult
classify ret = elim (at_lines wrapped_bad_param true ret) [
  | some name ↦ rejected code_validation_unknown_attribute name ret
  | none ↦ elim (at_lines wrapped_syntax true ret) [
    | some _ ↦ rejected code_validation_syntax [] ret
    | none ↦ elim (at_lines bad_param true ret) [
      | some name ↦ rejected code_validation_unknown_attribute name ret
      | none ↦ elim (at_lines bare_syntax true ret) [
        | some _ ↦ rejected code_validation_syntax [] ret
        | none ↦ valid_result ret
      ]
    ]
  ]
]
