-- ===== src/Transport/Literal.antt =====
-- How RouterOS reads a double-quoted literal, as far as it is relied on here: `\"`, `\\` and `\$` stand
-- for the second character, the first quote without a backslash ends the literal, and any other byte
-- stands for itself. A `$` without a backslash begins a substitution (`$name`, `$[...]`, `$(...)`), and
-- other escapes (`\n`, `\t`, two hexadecimal digits) stand for other characters: of a literal that has
-- one of these only that it is `evaluated` is said, and no value. No code is translated here.
use goros.Common.{ℕ, Text, Bool, true, false, ◌||◌, [], ◌∷◌, if◌then◌else◌, ◌==◌}

-- A literal with its value and what follows it; one that is never ended; one that has to be evaluated;
-- a text that does not begin with a literal.
pub data Reading : Type 0 where
  closed : Text → Text → Reading
  unended : Reading
  evaluated : Reading
  not_literal : Reading

abbrev pub prepend : ℕ → Reading → Reading
prepend x (closed v rest) = closed (x ∷ v) rest
prepend x unended = unended
prepend x evaluated = evaluated
prepend x not_literal = not_literal

-- What stands for itself behind a backslash.
abbrev is_escaped : ℕ → Bool
is_escaped x = x == b'"' || x == 92 || x == 36

-- The reading of the text behind the opening quote; `true` says that a backslash stands before.
unfoldable pub read_body : Bool → Text → Reading
read_body escaped [] = unended
read_body true (x ∷ s) =
    let rest = prepend x (read_body false s) in if is_escaped x then rest else evaluated
read_body false (x ∷ s) =
    let taken = read_body true s in
    let plain = prepend x (read_body false s) in
    if x == b'"'
    then closed [] s
    else if x == 92
    then taken
    else if x == 36
    then evaluated
    else plain

-- The reading of the literal that the text begins with.
unfoldable pub read_literal : Text → Reading
read_literal [] = not_literal
read_literal (x ∷ s) = if x == b'"' then read_body false s else not_literal
