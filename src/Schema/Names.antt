-- ===== src/Schema/Names.antt =====
-- The lists of names of schema/discover.go: what `Discover` collects and sorts.
use goros.Common.{
  Text, text, text_eq, text_eq_iff, Bool, false, ◌||◌, ◌&&◌, not, List, [], ◌∷◌, ◌++◌,
  if◌then◌else◌, is_empty, ◌≡◌, refl, inl, inr, Bool-cases, arith, append-nil, append_assoc, sym,
  ◌∙◌,
}
use goros.Common.Sort.{sort_texts}
use goros.Transport.{InspectNode}
use goros.Schema.{Attribute, is_argument_node, is_command_node}

unfoldable pub has_command_node : List InspectNode → Text → Bool
has_command_node [] name = false
has_command_node (n ∷ nodes) name = is_command_node n name || has_command_node nodes name

unfoldable pub names_of_argument_nodes : List InspectNode → List Text
names_of_argument_nodes [] = []
names_of_argument_nodes (n ∷ nodes) =
    let rest = names_of_argument_nodes nodes in
    if is_argument_node n && not (is_empty n.name) then n.name ∷ rest else rest

-- Whether the map `seen` has the name: it holds what is in the list.
unfoldable pub contains : List Text → Text → Bool
contains [] n = false
contains (x ∷ xs) n = text_eq x n || contains xs n

unfoldable pub merge_names : List Text → List Text → List Text
merge_names dst [] = dst
merge_names dst (n ∷ src) = merge_names (if contains dst n then dst else dst ++ (n ∷ [])) src

abbrev pub structural_completion_tokens : List Text
structural_completion_tokens =
    text "["
    ∷ text "]"
    ∷ text "("
    ∷ text ")"
    ∷ text "$"
    ∷ (b'"' ∷ [])
    ∷ text "*"
    ∷ text "<value>"
    ∷ text "about"
    ∷ text "`"
    ∷ []

unfoldable pub usable_completion_names : List Text → List Text
usable_completion_names [] = []
usable_completion_names (n ∷ names) =
    let rest = usable_completion_names names in
    if contains structural_completion_tokens n then rest else n ∷ rest

unfoldable pub attributes_of : List Text → List Attribute
attributes_of [] = []
attributes_of (n ∷ names) = record { name = n } ∷ attributes_of names

-- Attributes are ordered by their names, and two with one name are equal.
unfoldable pub sorted_attributes : List Text → List Attribute
unfolding attributes_of
sorted_attributes names = attributes_of (sort_texts names)

unfoldable pub field_discovery_argument : Text → List InspectNode → Text
field_discovery_argument verb path_children =
    if text_eq verb (text "print")
    then (if has_command_node path_children (text "print") then text "proplist" else [])
    else if text_eq verb (text "get")
    then (if has_command_node path_children (text "get") then text "value-name" else [])
    else []

contains-append :
    (xs ys : List Text) (n : Text) → contains (xs ++ ys) n ≡ (contains xs n || contains ys n)
unfolding contains
contains-append [] ys n = refl
contains-append (x ∷ xs) ys n = ground (arith, contains-append xs ys n)

-- No name stands twice.
abbrev pub IsUnique : List Text → Type 0
IsUnique [] = Unit
IsUnique (x ∷ xs) = (contains xs x ≡ false) × IsUnique xs

IsUnique-snoc :
    (xs : List Text) (n : Text) → IsUnique xs → contains xs n ≡ false → IsUnique (xs ++ (n ∷ []))
unfolding contains
IsUnique-snoc [] n u h = (refl, tt)
IsUnique-snoc (x ∷ xs) n u h = (
  ground (arith, contains-append xs (n ∷ []) x, text_eq_iff x n, text_eq_iff n x),
  IsUnique-snoc xs n u.1 (ground arith),
)

-- The merged list holds exactly the names of the two lists.
merge_names-contains :
    (dst src : List Text) (n : Text)
    → contains (merge_names dst src) n ≡ (contains dst n || contains src n)
unfolding merge_names contains
merge_names-contains dst [] n = ground arith
merge_names-contains dst (m ∷ src) n = elim (Bool-cases (contains dst m)) [
  | inl e ↦ rw e (ground (arith, merge_names-contains dst src n, text_eq_iff m n))
  | inr e ↦
      rw e (
        ground
          (arith, merge_names-contains (dst ++ (m ∷ [])) src n, contains-append dst (m ∷ []) n))
]

-- No name of `src` comes twice, where none of `dst` does.
merge_names-IsUnique : (dst src : List Text) → IsUnique dst → IsUnique (merge_names dst src)
unfolding merge_names
merge_names-IsUnique dst [] u = u
merge_names-IsUnique dst (m ∷ src) u = elim (Bool-cases (contains dst m)) [
  | inl e ↦ rw e (merge_names-IsUnique dst src u)
  | inr e ↦ rw e (merge_names-IsUnique (dst ++ (m ∷ [])) src (IsUnique-snoc dst m u e))
]

-- `dst` stays in front as it was.
merge_names_front : (dst src : List Text) → (more : List Text) × (merge_names dst src ≡ dst ++ more)
unfolding merge_names
merge_names_front dst [] = ([], sym (append-nil dst))
merge_names_front dst (m ∷ src) = elim (Bool-cases (contains dst m)) [
  | inl e ↦ rw e (merge_names_front dst src)
  | inr e ↦ rw e (
      let (more, same) = merge_names_front (dst ++ (m ∷ [])) src in
      (m ∷ more, same ∙ append_assoc dst (m ∷ []) more))
]

-- From a list that repeats no name, `mergeNames` makes one that has it in front, holds exactly the
-- names of both lists, and repeats no name either, whatever the second list repeats.
pub merge_names_lem :
    (dst src : List Text)
    → IsUnique dst
    → ((more : List Text) × (merge_names dst src ≡ dst ++ more))
      × ((n : Text) → contains (merge_names dst src) n ≡ (contains dst n || contains src n))
      × IsUnique (merge_names dst src)
merge_names_lem dst src u =
    (merge_names_front dst src, merge_names-contains dst src, merge_names-IsUnique dst src u)
