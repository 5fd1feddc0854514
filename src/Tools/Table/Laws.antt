-- ===== src/Tools/Table/Laws.antt =====
-- That the table of examples/tab can be read back.
use goros.Common.{
  ℕ, Text, List, [], ◌∷◌, ◌++◌, map, All, Lacks, ◌==◌, ==_iff, ◌≡◌, refl, sym, ap, ◌∙◌, inl, inr,
  arith, Bool-cases, append_assoc,
}
use goros.Common.Assoc.{get_or_empty}
use goros.Proto.Sentence.{Sentence}
use goros.Tools.{split}
use goros.Tools.Table.{cells_text, table_text}

abbrev pub drop_last : List Text → List Text
drop_last [] = []
drop_last (x ∷ []) = []
drop_last (x ∷ (y ∷ l)) = x ∷ drop_last (y ∷ l)

-- Reading a table: the lines but the blank one at its end, each cut at the tabs.
abbrev pub read_cells : Text → List Text
read_cells line = drop_last (split 9 line)

abbrev pub read_table : Text → List (List Text)
read_table t = map read_cells (drop_last (drop_last (split 10 t)))

-- The values of a row, in the order of the properties.
abbrev pub values_of : List Text → Sentence → List Text
values_of [] re = []
values_of (p ∷ ps) re = get_or_empty p re.attributes ∷ values_of ps re

abbrev pub IsPlain : Text → Type 0
IsPlain v = Lacks 9 v × Lacks 10 v

split-append : (c : ℕ) (a b : Text) → Lacks c a → split c (a ++ (c ∷ b)) ≡ a ∷ split c b
unfolding split
split-append c [] b h = rw ((==_iff c c).1 refl) refl
split-append c (x ∷ a) b h = elim (Bool-cases (x == c)) [
  | inl e ↦ absurd (h.0 ((==_iff x c).0 e))
  | inr e ↦ rw (e, split-append c a b h.1) refl
]

drop_last-append : (l : List Text) (x : Text) → drop_last (l ++ (x ∷ [])) ≡ l
drop_last-append [] x = refl
drop_last-append (y ∷ []) x = refl
drop_last-append (y ∷ (z ∷ l)) x = ap (λ l. y ∷ l) (drop_last-append (z ∷ l) x)

Lacks-append : (c : ℕ) (a b : Text) → Lacks c a → Lacks c b → Lacks c (a ++ b)
Lacks-append c [] b ha hb = hb
Lacks-append c (x ∷ a) b ha hb = (ha.0, Lacks-append c a b ha.1 hb)

drop_two-append : (l : List Text) (x y : Text) → drop_last (drop_last (l ++ (x ∷ y ∷ []))) ≡ l
drop_two-append l x y =
    ap drop_last
      (ap drop_last (sym (append_assoc l (x ∷ []) (y ∷ []))) ∙ drop_last-append (l ++ (x ∷ [])) y)
    ∙ drop_last-append l x

module _ (re : Sentence) where
  split-cells_text :
      (ps : List Text)
      → All IsPlain (values_of ps re)
      → split 9 (cells_text ps re) ≡ values_of ps re ++ ([] ∷ [])
  unfolding split cells_text
  split-cells_text [] h = refl
  split-cells_text (p ∷ ps) ((tab, line), h) =
      split-append 9 (get_or_empty p re.attributes) (cells_text ps re) tab
      ∙ ap (λ l. get_or_empty p re.attributes ∷ l) (split-cells_text ps h)

  cells_text-Lacks : (ps : List Text) → All IsPlain (values_of ps re) → Lacks 10 (cells_text ps re)
  unfolding cells_text
  cells_text-Lacks [] h = tt
  cells_text-Lacks (p ∷ ps) ((tab, line), h) =
      Lacks-append 10 (get_or_empty p re.attributes) (9 ∷ cells_text ps re) line
        (omega arith, cells_text-Lacks ps h)

  read_cells-cells_text :
      (ps : List Text)
      → All IsPlain (values_of ps re)
      → read_cells (cells_text ps re) ≡ values_of ps re
  read_cells-cells_text ps h =
      ap drop_last (split-cells_text ps h) ∙ drop_last-append (values_of ps re) []

-- No value of the rows has a tab or a line break.
abbrev pub AllPlain : List Text → List Sentence → Type 0
AllPlain ps rows = All (λ re. All IsPlain (values_of ps re)) rows

split-table_text :
    (ps : List Text) (rows : List Sentence)
    → AllPlain ps rows
    → split 10 (table_text ps rows) ≡ map (cells_text ps) rows ++ ([] ∷ [] ∷ [])
unfolding split table_text
split-table_text ps [] h = refl
split-table_text ps (re ∷ rows) h =
    split-append 10 (cells_text ps re) (table_text ps rows) (cells_text-Lacks re ps h.0)
    ∙ ap (λ l. cells_text ps re ∷ l) (split-table_text ps rows h.1)

map-read_cells :
    (ps : List Text) (rows : List Sentence)
    → AllPlain ps rows
    → map read_cells (map (cells_text ps) rows) ≡ map (values_of ps) rows
map-read_cells ps [] h = refl
map-read_cells ps (re ∷ rows) h = cc (read_cells-cells_text re ps h.0, map-read_cells ps rows h.1)

-- What examples/tab prints for a reply can be read back: where no value has a tab or a line break, its
-- lines, cut at the tabs, are the rows of the reply in order, each with the values of the properties
-- that were asked for, in their order, and an empty cell where a row has no such property.
pub read_table-table_text :
    (ps : List Text) (rows : List Sentence)
    → AllPlain ps rows
    → read_table (table_text ps rows) ≡ map (values_of ps) rows
read_table-table_text ps rows h =
    ap (λ t. map read_cells (drop_last (drop_last t))) (split-table_text ps rows h)
    ∙ ap (map read_cells) (drop_two-append (map (cells_text ps) rows) [] [])
    ∙ map-read_cells ps rows h
