-- ===== src/Ssh/Output.antt =====
-- `CleanConsoleOutput` of transport/ssh/output.go.
pub mod Lines
pub mod Ends
pub mod Kept
pub mod Clean
use goros.Common.{
  ℕ, Text, Bool, true, false, ◌&&◌, ◌||◌, List, [], ◌∷◌, ◌++◌, if◌then◌else◌, is_empty, trim_space,
  trim_right_by, join_with, ◌==◌,
}

-- `strings.ReplaceAll(s, "\r\n", "\n")`
unfoldable pub replace_crlf : Text → Text
replace_crlf [] = []
replace_crlf (c ∷ []) = c ∷ []
replace_crlf (c ∷ d ∷ s) =
    let joined = replace_crlf s in
    let kept = replace_crlf (d ∷ s) in if c == 13 && d == 10 then 10 ∷ joined else c ∷ kept

-- `strings.ReplaceAll(s, "\r", "\n")`
unfoldable pub replace_cr : Text → Text
replace_cr [] = []
replace_cr (c ∷ s) = (if c == 13 then 10 else c) ∷ replace_cr s

abbrev pub cons_first : ℕ → List Text → List Text
cons_first c [] = (c ∷ []) ∷ []
cons_first c (line ∷ lines) = (c ∷ line) ∷ lines

-- `strings.Split(s, "\n")`
unfoldable pub split_lines : Text → List Text
split_lines [] = [] ∷ []
split_lines (c ∷ s) =
    let lines = split_lines s in if c == 10 then [] ∷ lines else cons_first c lines

unfoldable pub is_blank : Text → Bool
is_blank line = is_empty (trim_space line)

-- The lines from `start` on.
unfoldable pub drop_blank_front : List Text → List Text
drop_blank_front [] = []
drop_blank_front (line ∷ lines) =
    let rest = drop_blank_front lines in if is_blank line then rest else line ∷ lines

abbrev pub no_lines : List Text → Bool
no_lines [] = true
no_lines (line ∷ lines) = false

-- The lines before `end`.
unfoldable pub drop_blank_back : List Text → List Text
drop_blank_back [] = []
drop_blank_back (line ∷ lines) =
    let rest = drop_blank_back lines in if no_lines rest && is_blank line then [] else line ∷ rest

abbrev pub is_pad : ℕ → Bool
is_pad c = c == 32 || c == 9

-- `strings.TrimRight(line, " \t")` on each line
unfoldable pub trim_lines : List Text → List Text
trim_lines [] = []
trim_lines (line ∷ lines) = trim_right_by is_pad line ∷ trim_lines lines

unfoldable pub clean_console_output : Text → Text
clean_console_output stdout =
    let normalized = replace_cr (replace_crlf stdout) in
    join_with (10 ∷ []) (trim_lines (drop_blank_back (drop_blank_front (split_lines normalized))))
