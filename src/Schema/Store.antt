-- ===== src/Schema/Store.antt =====
-- `Store` of schema/discover.go. The device's answer to a probe may depend on all the probes before.
pub mod Caching
pub mod Outcome
use goros.Common.{
  ℕ, Text, text, text_eq, Bool, true, false, ◌||◌, List, [], ◌∷◌, ◌++◌, Option, none, some,
  if◌then◌else◌, is_empty,
}
use goros.Common.Assoc.{Assoc, lookup, insert}
use goros.Roserr.{GoError, Result, ok, err}
use goros.Transport.{InspectNode, inspect_child, inspect_completion}
use goros.Schema.{
  Category, category_table, category_action, category_unknown, CommandSchema, path_tokens,
  inspect_path, extract_completion_names, is_swallowable_inspect_err,
}
use goros.Schema.Names.{
  has_command_node, names_of_argument_nodes, merge_names, usable_completion_names,
  sorted_attributes, field_discovery_argument,
}
use goros.Schema.Cache.{Cache, new_cache, schema_key, cache_get, cache_put, cache_delete}

-- A probe of the transport: the request kind and the path.
pub record Probe : Type 0 where
  pub request : Text
  pub path : Text

-- What the transport answers to a probe after the probes so far.
abbrev pub Device : Type 0
Device = List Probe → Probe → Result (List InspectNode)

pub record Store : Type 0 where
  pub cache : Cache
  pub overrides : Assoc Category
  pub calls : List Probe

abbrev pub new_store : Store
new_store = record { cache = new_cache; overrides = []; calls = [] }

unfoldable pub register_category : Text → Text → Category → Store → Store
register_category path verb c s = record s {
  cache = cache_delete path verb s.cache;
  overrides = insert (schema_key path verb) c s.overrides;
}

-- The category by the verb, then the override.
unfoldable pub category_of : Store → Text → Text → List InspectNode → Category
category_of s key verb path_children = elim (lookup key s.overrides) [
  | some c ↦ c
  | none ↦
      if has_command_node path_children verb
      then (if text_eq verb (text "print") || text_eq verb (text "get")
          then category_table
          else category_action)
      else category_unknown
]

-- The names that a completion probe adds.
abbrev pub add_completions : List Text → List InspectNode → List Text
add_completions attrs rows =
    merge_names attrs (usable_completion_names (extract_completion_names rows))

module _ (device : Device) (later : ℕ) (path verb : Text) where
  -- `Transport.Inspect`
  abbrev pub inspect : Text → List Text → Store → Store × Result (List InspectNode)
  inspect request tokens s =
      let probe : Probe = record { request = request; path = inspect_path tokens } in
      (record s { calls = s.calls ++ (probe ∷ []) }, device s.calls probe)

  -- `put`, at the time `later`.
  abbrev pub put : CommandSchema → Store → Store × Result CommandSchema
  put sch s = (record s { cache = cache_put later (schema_key path verb) sch s.cache }, ok sch)

  -- Step 5: the schema.
  unfoldable pub conclude : List Text → List InspectNode → Store → Store × Result CommandSchema
  conclude attrs path_children s =
      put
        (record {
          path = path;
          verb = verb;
          category = category_of s (schema_key path verb) verb path_children;
          attributes = sorted_attributes attrs;
          source = text "inspect child+completion";
        })
        s

  -- What the answer of a probe leads to: `good` with the rows; at an error that means an absent path
  -- `bad`, and any other error is passed on.
  abbrev pub after :
      Store
      → Result (List InspectNode)
      → (List InspectNode → Store → Store × Result CommandSchema)
      → (Store → Store × Result CommandSchema)
      → Store × Result CommandSchema
  after s (ok rows) good bad = good rows s
  after s (err e) good bad = if is_swallowable_inspect_err e then bad s else (s, err e)

  -- Step 4: the field discovery.
  unfoldable pub probe_fields :
      Text → List Text → List InspectNode → Store → Store × Result CommandSchema
  probe_fields field_arg attrs path_children s =
      let (s', r) = inspect inspect_completion (path_tokens path ++ (verb ∷ field_arg ∷ [])) s in
      after s' r (λ rows. conclude (add_completions attrs rows) path_children)
        (conclude attrs path_children)

  unfoldable pub discover_fields :
      List Text → List InspectNode → Store → Store × Result CommandSchema
  discover_fields attrs path_children s =
      let field_arg = field_discovery_argument verb path_children in
      if is_empty field_arg
      then conclude attrs path_children s
      else probe_fields field_arg attrs path_children s

  -- Step 3: the completion on the command.
  unfoldable pub discover_completions :
      List Text → List InspectNode → Store → Store × Result CommandSchema
  discover_completions attrs path_children s =
      let (s', r) = inspect inspect_completion (path_tokens path ++ (verb ∷ [])) s in
      after s' r (λ rows. discover_fields (add_completions attrs rows) path_children)
        (discover_fields attrs path_children)

  -- Step 2: the command nodes of the path.
  unfoldable pub discover_path : List Text → Store → Store × Result CommandSchema
  discover_path attrs s =
      let (s', r) = inspect inspect_child (path_tokens path) s in
      after s' r (discover_completions attrs) (discover_completions attrs [])

  -- The schema of a command whose first probe found nothing.
  abbrev pub unknown_schema : CommandSchema
  unknown_schema = record {
    path = path;
    verb = verb;
    category = category_unknown;
    attributes = [];
    source = text "inspect-failed";
  }

  -- Step 1: the argument nodes of the command.
  unfoldable pub discover_command : Store → Store × Result CommandSchema
  discover_command s =
      let (s', r) = inspect inspect_child (path_tokens path ++ (verb ∷ [])) s in
      after s' r (λ cmd_children. discover_path (names_of_argument_nodes cmd_children))
        (put unknown_schema)

  -- `Discover` that looks into the cache at the time `now`.
  unfoldable pub discover : ℕ → Store → Store × Result CommandSchema
  discover now s =
      let (cache, hit) = cache_get now (schema_key path verb) s.cache in
      elim hit [
        | some sch ↦ (record s { cache = cache }, ok sch)
        | none ↦ discover_command (record s { cache = cache })
      ]

-- `InspectChildrenOrEmpty` of schema/inspect.go, over the answer to its probe.
unfoldable pub inspect_children_or_empty : Result (List InspectNode) → Result (List InspectNode)
inspect_children_or_empty (ok nodes) = ok nodes
inspect_children_or_empty (err e) = if is_swallowable_inspect_err e then ok [] else err e
