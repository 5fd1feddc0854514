-- ===== src/Ssh/Output/Kept.antt =====
-- Which lines of a console's output cleaning keeps.
use goros.Common.{
  Text, true, false, ◌&&◌, List, [], ◌∷◌, ◌++◌, join_with, All, ◌≡◌, inl, inr, refl, ap, ◌∙◌, arith,
  Bool-cases,
}
use goros.Ssh.Output.{
  is_blank, drop_blank_front, no_lines, drop_blank_back, trim_lines, clean_console_output,
}
use goros.Ssh.Output.Ends.{
  source_lines, LinesOf, source_lines-LinesOf, AllTrimmed, trim_lines-AllTrimmed,
}

abbrev pub Blank : Text → Type 0
Blank line = is_blank line ≡ true

-- No blank line at the front, or at the back.
abbrev pub StartsInk : List Text → Type 0
StartsInk [] = Unit
StartsInk (line ∷ lines) = is_blank line ≡ false

abbrev pub EndsInk : List Text → Type 0
EndsInk [] = Unit
EndsInk (line ∷ []) = is_blank line ≡ false
EndsInk (line ∷ next ∷ lines) = EndsInk (next ∷ lines)

-- What is left of the lines, and what is dropped in front and behind.
pub record Kept (lines kept : List Text) : Type 0 where
  pub front : List Text
  pub back : List Text
  pub parts : lines ≡ front ++ (kept ++ back)
  pub front_blank : All Blank front
  pub back_blank : All Blank back
  pub starts : StartsInk kept
  pub ends : EndsInk kept

abbrev DropFront : List Text → Type 0
DropFront lines =
    (front : List Text) × (lines ≡ front ++ drop_blank_front lines)
    × All Blank front
    × StartsInk (drop_blank_front lines)

drop_front : (lines : List Text) → DropFront lines
unfolding drop_blank_front
drop_front [] = ([], refl, tt, tt)
drop_front (line ∷ lines) = elim (Bool-cases (is_blank line)) [
  | inl e ↦
      let (front, p, b, s) = drop_front lines in rw e (line ∷ front, ap (◌∷◌ line) p, (e, b), s)
  | inr e ↦ rw e ([], refl, tt, e)
]

abbrev DropBack : List Text → Type 0
DropBack lines =
    (back : List Text) × (lines ≡ drop_blank_back lines ++ back)
    × All Blank back
    × EndsInk (drop_blank_back lines)

ends_cons :
    (line : Text) (lines : List Text)
    → (no_lines lines && is_blank line) ≡ false
    → EndsInk lines
    → EndsInk (line ∷ lines)
ends_cons line [] e h = e
ends_cons line (next ∷ lines) e h = h

no_lines→nil : (lines : List Text) → no_lines lines ≡ true → lines ≡ []
no_lines→nil [] h = refl
no_lines→nil (line ∷ lines) h = cc

drop_back : (lines : List Text) → DropBack lines
unfolding drop_blank_back
drop_back [] = ([], refl, tt, tt)
drop_back (line ∷ lines) = elim (Bool-cases (no_lines (drop_blank_back lines) && is_blank line)) [
  | inl e ↦
      let (back, p, b, s) = drop_back lines in
      rw e (
        line ∷ back,
        ap (◌∷◌ line) (rw (no_lines→nil (drop_blank_back lines) (ground arith)) at p),
        (ground arith, b),
        tt,
      )
  | inr e ↦
      let (back, p, b, s) = drop_back lines in
      rw e (back, ap (◌∷◌ line) p, b, ends_cons line (drop_blank_back lines) e s)
]

-- Dropping blank lines behind keeps the first line where that is not blank.
drop_back_starts : (lines : List Text) → StartsInk lines → StartsInk (drop_blank_back lines)
unfolding drop_blank_back
drop_back_starts [] h = tt
drop_back_starts (line ∷ lines) h =
    elim (Bool-cases (no_lines (drop_blank_back lines) && is_blank line)) [
      | inl e ↦ rw e tt
      | inr e ↦ rw e h
    ]

drop_blank-Kept : (lines : List Text) → Kept lines (drop_blank_back (drop_blank_front lines))
drop_blank-Kept lines =
    let (front, p, b, s) = drop_front lines in
    let (back, q, c, e) = drop_back (drop_blank_front lines) in
    record {
      front = front;
      back = back;
      parts = p ∙ ap (◌++◌ front) q;
      front_blank = b;
      back_blank = c;
      starts = drop_back_starts (drop_blank_front lines) s;
      ends = e;
    }

-- Cleaning takes the lines of the text, whichever of newline, carriage return and the two together ends
-- each, drops the blank lines in front and behind and no other line, trims the spaces and tabs behind
-- each line that is left and nothing else, and joins the lines with newlines.
pub clean_console_output-Kept :
    (s : Text)
    → (lines : List Text) × (kept : List Text) × (outs : List Text) × LinesOf s lines
      × Kept lines kept
      × AllTrimmed kept outs
      × (clean_console_output s ≡ join_with (10 ∷ []) outs)
unfolding clean_console_output
clean_console_output-Kept s =
    let kept = drop_blank_back (drop_blank_front (source_lines s)) in
    (
      source_lines s,
      kept,
      trim_lines kept,
      source_lines-LinesOf s,
      drop_blank-Kept (source_lines s),
      trim_lines-AllTrimmed kept,
      refl,
    )

-- The same with the code's own functions.
pub cleaned_lines :
    (s : Text)
    → (kept : List Text) × Kept (source_lines s) kept
      × (clean_console_output s ≡ join_with (10 ∷ []) (trim_lines kept))
unfolding clean_console_output
cleaned_lines s =
    (drop_blank_back (drop_blank_front (source_lines s)), drop_blank-Kept (source_lines s), refl)
