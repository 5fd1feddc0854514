-- ===== src/Schema.antt =====
-- schema/schema.go and schema/inspect.go: the schema of a command, and the primitives of
-- /console/inspect.
pub mod Names
pub mod Cache
pub mod Store
mod Examples
use goros.Common.{
  Text, text, text_eq, Bool, true, false, ◌||◌, ◌&&◌, not, List, [], ◌∷◌, ◌++◌, Option, none, some,
}
use goros.Common.{if◌then◌else◌, is_empty, join_with, fields_func, split_at_byte, trim_space}
use goros.Roserr.{GoError, code_unknown_path, code_command_failed}
use goros.Roserr.Chain.{is_code}
use goros.Transport.{InspectNode}

abbrev pub Category : Type 0
Category = Text

abbrev pub category_table : Category
category_table = text "table"

abbrev pub category_action : Category
category_action = text "action"

abbrev pub category_unknown : Category
category_unknown = text "unknown"

pub record Attribute : Type 0 where
  pub name : Text

pub record CommandSchema : Type 0 where
  pub path : Text
  pub verb : Text
  pub category : Category
  pub attributes : List Attribute
  pub source : Text

has_name : Text → List Attribute → Bool
has_name name [] = false
has_name name (a ∷ as') = text_eq a.name name || has_name name as'

unfoldable pub has_attribute : CommandSchema → Text → Bool
unfolding has_name
has_attribute s name = has_name name s.attributes

unfoldable pub path_tokens : Text → List Text
path_tokens path = fields_func b'/' path

abbrev pub inspect_path : List Text → Text
inspect_path tokens = join_with (text ",") tokens

unfoldable pub is_argument_node : InspectNode → Bool
is_argument_node n = text_eq n.kind (text "arg") || text_eq n.node_type (text "arg")

unfoldable pub is_command_node : InspectNode → Text → Bool
is_command_node n name =
    text_eq n.name name && (text_eq n.kind (text "cmd") || text_eq n.node_type (text "cmd"))

-- The texts of a row that are not empty.
unfoldable pub drop_blanks : List Text → List Text
drop_blanks [] = []
drop_blanks (v ∷ vs) = let rest = drop_blanks vs in if is_empty v then rest else v ∷ rest

unfoldable pub picked_fields : InspectNode → List Text
unfolding drop_blanks
picked_fields r =
    let picked = drop_blanks (r.completion ∷ r.name ∷ r.value ∷ []) in
    elim picked [ [] ↦ drop_blanks (r.text_form ∷ []) | v ∷ vs ↦ v ∷ vs ]

-- The part before the first "=", trimmed.
unfoldable pub completion_name : Text → Text
completion_name v = trim_space (split_at_byte b'=' v).0

completion_names : List Text → List Text
completion_names [] = []
completion_names (v ∷ vs) = completion_name v ∷ completion_names vs

unfoldable pub extract_completion_names : List InspectNode → List Text
unfolding completion_names
extract_completion_names [] = []
extract_completion_names (r ∷ rows) =
    drop_blanks (completion_names (picked_fields r)) ++ extract_completion_names rows

unfoldable pub is_swallowable_inspect_err : GoError → Bool
is_swallowable_inspect_err e = is_code code_unknown_path e || is_code code_command_failed e
