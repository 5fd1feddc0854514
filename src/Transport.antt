-- ===== src/Transport.antt =====
-- transport/contract.go: the canonical command, its renderings, and the canonical reply.
pub mod Order
pub mod Said
pub mod Literal
pub mod Quoting
pub mod Seam
pub mod Examples
use goros.Common.{Text, text, Bool, true, false, ◌||◌, ◌&&◌, List, [], ◌∷◌, ◌++◌, ℕ}
use goros.Common.{if◌then◌else◌, is_empty, join_with, fields_func, trim_right_by, ◌==◌}
use goros.Common.Assoc.{Assoc, keys, get_or_empty}
use goros.Common.Sort.{sort_texts}

abbrev pub reply_re : Text
reply_re = text "!re"

abbrev pub reply_done : Text
reply_done = text "!done"

abbrev pub reply_trap : Text
reply_trap = text "!trap"

abbrev pub reply_fatal : Text
reply_fatal = text "!fatal"

abbrev pub reply_empty : Text
reply_empty = text "!empty"

pub record Reply : Type 0 where
  pub kind : Text
  pub attributes : Assoc Text
  pub tag : Text
  pub raw_words : List Text

-- `Reply.Ret`
abbrev pub ret : Reply → Text
ret r = get_or_empty (text "ret") r.attributes

-- `Reply.Message`
abbrev pub reply_message : Reply → Text
reply_message r = get_or_empty (text "message") r.attributes

pub record Command : Type 0 where
  pub path : Text
  pub verb : Text
  pub attributes : Assoc Text
  pub queries : List Text
  pub proplist : List Text
  pub script : Text

abbrev pub script_command : Text → Command
script_command s = record {
  path = [];
  verb = [];
  attributes = [];
  queries = [];
  proplist = [];
  script = s;
}

unfoldable pub path_tokens : Text → List Text
path_tokens path = fields_func b'/' path

unfoldable pub sorted_keys : Assoc Text → List Text
sorted_keys m = sort_texts (keys m)

-- `strings.ReplaceAll` of one byte by a text.
unfoldable pub replace_byte : ℕ → Text → Text → Text
replace_byte c by [] = []
replace_byte c by (x ∷ v) =
    let rest = replace_byte c by v in if x == c then by ++ rest else x ∷ rest

-- `strings.ContainsAny(v, " \t\"")`
unfoldable pub needs_quotes : Text → Bool
needs_quotes [] = false
needs_quotes (x ∷ v) = (x == 32 || x == 9 || x == b'"') || needs_quotes v

unfoldable pub quote_cli_value : Text → Text
unfolding replace_byte needs_quotes
quote_cli_value v =
    if needs_quotes v then b'"' ∷ replace_byte b'"' (92 ∷ b'"' ∷ []) v ++ (b'"' ∷ []) else v

-- The attributes in the order of their sorted keys, each rendered by `f`.
unfoldable pub render_attributes : (Text → Text → Text) → Assoc Text → List Text → Text
render_attributes f m [] = []
render_attributes f m (k ∷ ks) = f k (get_or_empty k m) ++ render_attributes f m ks

abbrev pub cli_attribute : Text → Text → Text
cli_attribute k v = text " " ++ k ++ text "=" ++ quote_cli_value v

render_queries : List Text → Text
render_queries [] = []
render_queries (q ∷ qs) = text " ?" ++ q ++ render_queries qs

render_proplist : List Text → Text
render_proplist [] = []
render_proplist (p ∷ ps) = text " .proplist=" ++ join_with (text ",") (p ∷ ps)

-- What `CLI` and `ConsoleCLI` have in common.
unfoldable pub render_rest : Command → Text
unfolding render_queries render_proplist
render_rest c =
    render_attributes cli_attribute c.attributes (sorted_keys c.attributes)
    ++ render_queries c.queries
    ++ render_proplist c.proplist

unfoldable pub cli : Command → Text
cli c =
    if is_empty c.script
    then c.path ++ (if is_empty c.verb then [] else text "/" ++ c.verb) ++ render_rest c
    else c.script

unfoldable pub console_cli : Command → Text
console_cli c =
    if is_empty c.script
    then (text "/"
        ++ join_with (text " ") (path_tokens c.path)
        ++ (if is_empty c.verb then [] else text " " ++ c.verb)
        ++ render_rest c)
    else c.script

-- The `=key=value` words in the order of the sorted keys.
unfoldable pub attribute_words : Assoc Text → List Text → List Text
attribute_words m [] = []
attribute_words m (k ∷ ks) = (text "=" ++ k ++ text "=" ++ get_or_empty k m) ∷ attribute_words m ks

unfoldable pub query_words : List Text → List Text
query_words [] = []
query_words (q ∷ qs) = (b'?' ∷ q) ∷ query_words qs

unfoldable pub proplist_words : List Text → List Text
proplist_words [] = []
proplist_words (p ∷ ps) = (text ".proplist=" ++ join_with (text ",") (p ∷ ps)) ∷ []

-- The command word: `strings.TrimRight(c.Path, "/") + "/" + c.Verb`, or the path alone.
abbrev pub command_word : Command → Text
command_word c =
    if is_empty c.verb then c.path else trim_right_by (λ x. x == b'/') c.path ++ text "/" ++ c.verb

unfoldable pub words : Command → List Text
unfolding attribute_words query_words proplist_words
words c =
    if is_empty c.script
    then command_word c
      ∷ (attribute_words c.attributes (sorted_keys c.attributes)
          ++ query_words c.queries
          ++ proplist_words c.proplist)
    else text "/execute" ∷ (text "=script=" ++ c.script) ∷ text "=as-string=" ∷ []

pub record Capabilities : Type 0 where
  pub structured : Bool
  pub console : Bool
  pub inspect : Bool

abbrev pub inspect_child : Text
inspect_child = text "child"

abbrev pub inspect_completion : Text
inspect_completion = text "completion"

pub record InspectNode : Type 0 where
  pub kind : Text
  pub node_type : Text
  pub name : Text
  pub completion : Text
  pub value : Text
  pub text_form : Text
