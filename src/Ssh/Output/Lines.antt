-- ===== src/Ssh/Output/Lines.antt =====
-- Lines: what splitting, joining, trimming and dropping make of them.
use goros.Common.{
  ℕ, Text, Bool, true, ◌&&◌, List, [], ◌∷◌, ◌++◌, is_empty, trim_space, trim_right_by, trim_left_by,
  is_space, join_with, ◌==◌, Lacks, All, ◌≡◌, ◌≢◌, refl, sym, ap, ◌∙◌, arith, inl, inr, Bool-cases,
}
use goros.Ssh.Output.{replace_crlf, replace_cr, cons_first, split_lines, is_blank, is_pad}

-- Every byte meets the test.
abbrev pub all_by : (ℕ → Bool) → Text → Bool
all_by p [] = true
all_by p (c ∷ s) = p c && all_by p s

empty_trim_right : (p : ℕ → Bool) (s : Text) → is_empty (trim_right_by p s) ≡ all_by p s
unfolding trim_right_by
empty_trim_right p [] = refl
empty_trim_right p (c ∷ s) = ground (arith, empty_trim_right p s)

all_trim_left : (p : ℕ → Bool) (s : Text) → all_by p (trim_left_by p s) ≡ all_by p s
unfolding trim_left_by
all_trim_left p [] = refl
all_trim_left p (c ∷ s) = ground (arith, all_trim_left p s)

pub is_blank_lem : (s : Text) → is_blank s ≡ all_by is_space s
unfolding is_blank trim_space
is_blank_lem s = empty_trim_right is_space (trim_left_by is_space s) ∙ all_trim_left is_space s

all_trim_right : (s : Text) → all_by is_space (trim_right_by is_pad s) ≡ all_by is_space s
unfolding trim_right_by
all_trim_right [] = refl
all_trim_right (c ∷ s) = ground (arith, all_trim_right s)

-- Trimming a line leaves it blank or not.
pub is_blank-trim : (s : Text) → is_blank (trim_right_by is_pad s) ≡ is_blank s
is_blank-trim s = is_blank_lem (trim_right_by is_pad s) ∙ all_trim_right s ∙ sym (is_blank_lem s)

-- Trimming twice is trimming once.
pub trim_again : (p : ℕ → Bool) (s : Text) → trim_right_by p (trim_right_by p s) ≡ trim_right_by p s
unfolding trim_right_by
trim_again p [] = refl
trim_again p (c ∷ s) = ground (arith, trim_again p s)

pub trim-Lacks : (p : ℕ → Bool) (c : ℕ) (s : Text) → Lacks c s → Lacks c (trim_right_by p s)
unfolding trim_right_by
trim-Lacks p c [] h = tt
trim-Lacks p c (x ∷ s) h = elim (Bool-cases (is_empty (trim_right_by p s) && p x)) [
  | inl e ↦ rw e tt
  | inr e ↦ rw e (h.0, trim-Lacks p c s h.1)
]

-- A text without the byte that `replace_cr` replaces is left as it is.
pub replace_cr-id : (s : Text) → Lacks 13 s → replace_cr (replace_crlf s) ≡ s
unfolding replace_cr replace_crlf
replace_cr-id [] h = refl
replace_cr-id (c ∷ []) h = ground arith
replace_cr-id (c ∷ d ∷ s) h = ground (arith, replace_cr-id (d ∷ s) h.1)

pub replace_cr-Lacks : (s : Text) → Lacks 13 (replace_cr s)
unfolding replace_cr
replace_cr-Lacks [] = tt
replace_cr-Lacks (c ∷ s) = (ground arith, replace_cr-Lacks s)

cons_first-Lacks :
    (k c : ℕ) (lines : List Text) → c ≢ k → All (Lacks k) lines → All (Lacks k) (cons_first c lines)
cons_first-Lacks k c [] h a = ((h, tt), tt)
cons_first-Lacks k c (line ∷ lines) h a = ((h, a.0), a.1)

-- Lines hold no newline, and nothing that the text does not hold.
pub split_lines-Lacks : (s : Text) → All (Lacks 10) (split_lines s)
unfolding split_lines
split_lines-Lacks [] = (tt, tt)
split_lines-Lacks (c ∷ s) = elim (Bool-cases (c == 10)) [
  | inl e ↦ rw e (tt, split_lines-Lacks s)
  | inr e ↦ rw e (cons_first-Lacks 10 c (split_lines s) (ground arith) (split_lines-Lacks s))
]

pub split_lines-Lacks_other : (k : ℕ) (s : Text) → Lacks k s → All (Lacks k) (split_lines s)
unfolding split_lines
split_lines-Lacks_other k [] h = (tt, tt)
split_lines-Lacks_other k (c ∷ s) h = elim (Bool-cases (c == 10)) [
  | inl e ↦ rw e (tt, split_lines-Lacks_other k s h.1)
  | inr e ↦ rw e (cons_first-Lacks k c (split_lines s) h.0 (split_lines-Lacks_other k s h.1))
]

split_line : (line s : Text) → Lacks 10 line → split_lines (line ++ (10 ∷ s)) ≡ line ∷ split_lines s
unfolding split_lines
split_line [] s h = refl
split_line (c ∷ line) s h = ground (arith, split_line line s h.1)

split_last : (line : Text) → Lacks 10 line → split_lines line ≡ line ∷ []
unfolding split_lines
split_last [] h = refl
split_last (c ∷ line) h = ground (arith, split_last line h.1)

-- Lines that are joined are split again, if there are any.
pub split-join :
    (line : Text) (lines : List Text)
    → All (Lacks 10) (line ∷ lines)
    → split_lines (join_with (10 ∷ []) (line ∷ lines)) ≡ line ∷ lines
split-join line [] h = split_last line h.0
split-join line (next ∷ lines) h =
    split_line line (join_with (10 ∷ []) (next ∷ lines)) h.0
    ∙ ap (◌∷◌ line) (split-join next lines h.1)
