-- ===== src/Ssh/Output/Clean.antt =====
-- That cleaned output is clean, and cleaning it again changes nothing.
use goros.Common.{
  ℕ, ◌≢◌, subst, Text, Bool, true, false, ◌&&◌, List, [], ◌∷◌, ◌++◌, if◌then◌else◌, is_empty,
  trim_right_by, join_with, Lacks, All, All-append, ◌≡◌, ◌⊎◌, inl, inr, refl, sym, ap, ap₂, ◌∙◌,
  arith, Bool-cases, append-nil, append_assoc,
}
use goros.Ssh.Output.{
  replace_crlf, replace_cr, split_lines, is_blank, drop_blank_front, drop_blank_back, is_pad,
  trim_lines, clean_console_output,
}
use goros.Ssh.Output.Lines.{
  is_blank-trim, trim_again, trim-Lacks, replace_cr-id, replace_cr-Lacks, split_lines-Lacks,
  split_lines-Lacks_other, split-join,
}
use goros.Ssh.Output.Kept.{StartsInk, EndsInk, Kept, cleaned_lines}
use goros.Ssh.Output.Ends.{source_lines}

-- A clean text: no carriage return, no line with spaces or tabs behind, no blank line at either end.
abbrev pub Trimmed : Text → Type 0
Trimmed line = trim_right_by is_pad line ≡ line

pub record IsClean (s : Text) : Type 0 where
  pub lines : List Text
  pub joined : s ≡ join_with (10 ∷ []) lines
  pub no_newline : All (Lacks 10) lines
  pub no_return : All (Lacks 13) lines
  pub trimmed : All Trimmed lines
  pub lines_start : StartsInk lines
  pub lines_end : EndsInk lines

-- What holds of a part holds, where it holds of the whole.
All-front : (P : Text → Type 0) (xs ys : List Text) → All P (xs ++ ys) → All P xs
All-front P [] ys h = tt
All-front P (x ∷ xs) ys h = (h.0, All-front P xs ys h.1)

All-back : (P : Text → Type 0) (xs ys : List Text) → All P (xs ++ ys) → All P ys
All-back P [] ys h = h
All-back P (x ∷ xs) ys h = All-back P xs ys h.1

Kept-All : (P : Text → Type 0) (lines kept : List Text) → Kept lines kept → All P lines → All P kept
Kept-All P lines kept k h =
    All-front P kept k.back (All-back P k.front (kept ++ k.back) (subst (All P) k.parts h))

trim_lines-Lacks :
    (c : ℕ) (lines : List Text) → All (Lacks c) lines → All (Lacks c) (trim_lines lines)
unfolding trim_lines
trim_lines-Lacks c [] h = tt
trim_lines-Lacks c (line ∷ lines) h = (trim-Lacks is_pad c line h.0, trim_lines-Lacks c lines h.1)

trim_lines-Trimmed : (lines : List Text) → All Trimmed (trim_lines lines)
unfolding trim_lines
trim_lines-Trimmed [] = tt
trim_lines-Trimmed (line ∷ lines) = (trim_again is_pad line, trim_lines-Trimmed lines)

trim_lines_start : (lines : List Text) → StartsInk lines → StartsInk (trim_lines lines)
unfolding trim_lines
trim_lines_start [] h = tt
trim_lines_start (line ∷ lines) h = is_blank-trim line ∙ h

trim_lines_end : (lines : List Text) → EndsInk lines → EndsInk (trim_lines lines)
unfolding trim_lines
trim_lines_end [] h = tt
trim_lines_end (line ∷ []) h = is_blank-trim line ∙ h
trim_lines_end (line ∷ next ∷ lines) h = trim_lines_end (next ∷ lines) h

-- Cleaned output is clean.
pub clean_console_output-IsClean : (s : Text) → IsClean (clean_console_output s)
clean_console_output-IsClean s =
    let (kept, k, e) = cleaned_lines s in
    let normalized = replace_cr (replace_crlf s) in
    record {
      lines = trim_lines kept;
      joined = e;
      no_newline =
          trim_lines-Lacks 10 kept
            (Kept-All (Lacks 10) (source_lines s) kept k (split_lines-Lacks normalized));
      no_return = trim_lines-Lacks 13 kept (
          Kept-All (Lacks 13) (source_lines s) kept k
            (split_lines-Lacks_other 13 normalized (replace_cr-Lacks (replace_crlf s))));
      trimmed = trim_lines-Trimmed kept;
      lines_start = trim_lines_start kept k.starts;
      lines_end = trim_lines_end kept k.ends;
    }

drop_front_id : (lines : List Text) → StartsInk lines → drop_blank_front lines ≡ lines
unfolding drop_blank_front
drop_front_id [] h = refl
drop_front_id (line ∷ lines) h = rw h refl

no_lines_back :
    (line : Text) (lines : List Text)
    → EndsInk (line ∷ lines)
    → drop_blank_back (line ∷ lines) ≡ line ∷ lines
unfolding drop_blank_back
no_lines_back line [] h = rw h refl
no_lines_back line (next ∷ lines) h = rw (no_lines_back next lines h) refl

trim_lines_id : (lines : List Text) → All Trimmed lines → trim_lines lines ≡ lines
unfolding trim_lines
trim_lines_id [] h = refl
trim_lines_id (line ∷ lines) h = ap₂ ◌∷◌ h.0 (trim_lines_id lines h.1)

append-Lacks : (c : ℕ) (a b : Text) → Lacks c a → Lacks c b → Lacks c (a ++ b)
append-Lacks c [] b h k = k
append-Lacks c (x ∷ a) b h k = (h.0, append-Lacks c a b h.1 k)

join-Lacks :
    (c : ℕ) (lines : List Text) → c ≢ 10 → All (Lacks c) lines → Lacks c (join_with (10 ∷ []) lines)
join-Lacks c [] n h = tt
join-Lacks c (line ∷ []) n h = h.0
join-Lacks c (line ∷ next ∷ lines) n h =
    append-Lacks c line (10 ∷ join_with (10 ∷ []) (next ∷ lines)) h.0
      ((λ e. n (sym e)), join-Lacks c (next ∷ lines) n h.1)

clean_empty : clean_console_output [] ≡ []
unfolding clean_console_output trim_lines drop_blank_back drop_blank_front split_lines replace_cr
    replace_crlf is_blank goros.Common.trim_space
clean_empty = refl

clean_lines :
    (lines : List Text)
    → All (Lacks 10) lines
    → All (Lacks 13) lines
    → All Trimmed lines
    → StartsInk lines
    → EndsInk lines
    → clean_console_output (join_with (10 ∷ []) lines) ≡ join_with (10 ∷ []) lines
unfolding clean_console_output
clean_lines [] n r t s e = clean_empty
clean_lines (line ∷ lines) n r t s e =
    rw
      (
        replace_cr-id (join_with (10 ∷ []) (line ∷ lines))
            (join-Lacks 13 (line ∷ lines) (ground arith) r),
        split-join line lines n,
        drop_front_id (line ∷ lines) s,
        no_lines_back line lines e,
        trim_lines_id (line ∷ lines) t,
      )
      refl

-- Cleaning leaves a clean text as it is.
pub clean_console_output_id : (s : Text) → IsClean s → clean_console_output s ≡ s
clean_console_output_id s c =
    rw c.joined (clean_lines c.lines c.no_newline c.no_return c.trimmed c.lines_start c.lines_end)

pub empty-IsClean : IsClean []
empty-IsClean = record {
  lines = [];
  joined = refl;
  no_newline = tt;
  no_return = tt;
  trimmed = tt;
  lines_start = tt;
  lines_end = tt;
}

-- Cleaning cleaned output changes nothing.
pub clean_console_output-clean_console_output :
    (s : Text) → clean_console_output (clean_console_output s) ≡ clean_console_output s
clean_console_output-clean_console_output s =
    clean_console_output_id (clean_console_output s) (clean_console_output-IsClean s)
