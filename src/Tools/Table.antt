-- ===== src/Tools/Table.antt =====
-- examples/tab: the loop that polls the interfaces and prints them as a table.
pub mod Laws
use goros.Common.{ℕ, Text, text, List, [], ◌∷◌, ◌++◌, Option, none, some}
use goros.Common.Assoc.{get_or_empty}
use goros.Proto.Sentence.{Sentence}
use goros.Roserr.{GoError}
use goros.Client.Sync.{Outcome}
use goros.Tools.{split, Ending, returns, exits, panics}

-- The sentence that each round sends.
abbrev pub poll_words : Text → List Text
poll_words properties =
    text "/interface/print"
    ∷ text "?disabled=false"
    ∷ text "?running=true"
    ∷ (text "=.proplist=" ++ properties)
    ∷ []

-- The cells of a row, each with a tab behind it.
unfoldable pub cells_text : List Text → Sentence → Text
cells_text [] re = []
cells_text (p ∷ ps) re = get_or_empty p re.attributes ++ (9 ∷ cells_text ps re)

unfoldable pub table_text : List Text → List Sentence → Text
unfolding cells_text
table_text ps [] = 10 ∷ []
table_text ps (re ∷ rows) = cells_text ps re ++ (10 ∷ table_text ps rows)

-- The rounds of the loop on what `Run` returns in each: what is printed, and how the program has ended,
-- unless it polls on.
unfoldable pub poll : Text → List Outcome → Text × Option Ending
unfolding table_text
poll properties [] = ([], none)
poll properties ((r, some e) ∷ os) = ([], some (exits 2 (text "could not run") e))
poll properties ((none, none) ∷ os) = ([], some panics)
poll properties ((some r, none) ∷ os) =
    let (printed, end) = poll properties os in
    (table_text (split b',' properties) r.re ++ printed, end)

-- `main`: `dialed` is the error of `Dial`, and then what `Run` returns in each round.
unfoldable pub tab_main : Text → Option GoError → List Outcome → Text × Option Ending
tab_main properties (some e) os = ([], some (exits 2 (text "could not dial") e))
tab_main properties none os = poll properties os
