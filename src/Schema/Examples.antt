-- ===== src/Schema/Examples.antt =====
-- The schema store against small devices.
use goros.Common.{
  Text, text, [], ◌∷◌, ◌++◌, Bool, true, false, none, some, ◌≡◌, refl, inl, inr, arith, Lacks,
  if◌then◌else◌, ◌&&◌, ltb, text_eq, ◌+◌, ◌||◌, List,
}
use goros.Common.Assoc.{insert, lookup}
use goros.Roserr.{GoError, ok, err, ros, no_cause, no_context, code_unknown_path, canceled}
use goros.Transport.{InspectNode}
use goros.Schema.{CommandSchema, category_action, category_table}
use goros.Schema.Names.{merge_names, contains, IsUnique, merge_names_lem}
use goros.Schema.Cache.{Cache, new_cache, schema_key, cache_get, cache_put}
use goros.Schema.Store.{
  Probe, Device, Store, new_store, register_category, unknown_schema, discover,
}
use goros.Schema.Store.Outcome.{Ends, discover-Ends}

abbrev a_node : InspectNode
a_node = record {
  kind = text "arg";
  node_type = [];
  name = text "name";
  completion = [];
  value = [];
  text_form = [];
}

-- Every probe finds one argument.
abbrev answering : Device
answering calls probe = ok (a_node ∷ [])

abbrev no_such_path : GoError
no_such_path =
    ros (record { code = code_unknown_path; summary = []; remediation = []; context = no_context })
      no_cause

abbrev rejecting : Device
rejecting calls probe = err no_such_path

abbrev unreachable : Device
unreachable calls probe = err canceled

abbrev path : Text
path = text "/ip"

abbrev verb : Text
verb = text "set"

-- What the probes of `/ip set` make of the cache.
abbrev found_schema : CommandSchema
found_schema = record {
  path = path;
  verb = verb;
  category = text "unknown";
  attributes = record { name = text "name" } ∷ [];
  source = text "inspect child+completion";
}

discover-Ends_example :
    Ends answering 5 path verb new_cache [] (discover answering 5 path verb 4 new_store)
unfolding cache_get lookup
discover-Ends_example =
    discover-Ends answering 5 path verb 4 new_store new_cache (a_node ∷ []) refl refl

abbrev after_discover : Store
after_discover = (discover answering 5 path verb 4 new_store).0

finds : discover answering 5 path verb 4 new_store ≡ (after_discover, ok found_schema)
unfolding discover register_category cache_get cache_put lookup insert text_eq schema_key
    merge_names contains goros.Common.Assoc.erase goros.Schema.Cache.cache_delete
    goros.Schema.Names.sorted_attributes goros.Common.Sort.sort_texts goros.Common.Sort.text_le
    goros.Schema.Names.usable_completion_names goros.Schema.extract_completion_names
    goros.Schema.drop_blanks goros.Schema.picked_fields goros.Schema.completion_name
    goros.Common.trim_space goros.Schema.Names.names_of_argument_nodes
    goros.Schema.Names.has_command_node goros.Schema.Names.field_discovery_argument
    goros.Schema.Names.attributes_of goros.Schema.Store.discover_command
    goros.Schema.Store.discover_path goros.Schema.Store.discover_completions
    goros.Schema.Store.discover_fields goros.Schema.Store.probe_fields goros.Schema.Store.conclude
    goros.Schema.Store.category_of goros.Schema.is_argument_node goros.Schema.is_command_node
    goros.Schema.is_swallowable_inspect_err goros.Schema.path_tokens goros.Common.fields_func
    goros.Common.split_at_byte
finds = refl

abbrev registered_store : Store
registered_store = register_category path verb category_table new_store

abbrev after_registered : Store
after_registered = (discover answering 5 path verb 4 registered_store).0

abbrev registered_schema : CommandSchema
registered_schema = record found_schema { category = category_table }

finds_registered :
    discover answering 5 path verb 4 registered_store ≡ (after_registered, ok registered_schema)
unfolding discover register_category cache_get cache_put lookup insert text_eq schema_key
    merge_names contains goros.Common.Assoc.erase goros.Schema.Cache.cache_delete
    goros.Schema.Names.sorted_attributes goros.Common.Sort.sort_texts goros.Common.Sort.text_le
    goros.Schema.Names.usable_completion_names goros.Schema.extract_completion_names
    goros.Schema.drop_blanks goros.Schema.picked_fields goros.Schema.completion_name
    goros.Common.trim_space goros.Schema.Names.names_of_argument_nodes
    goros.Schema.Names.has_command_node goros.Schema.Names.field_discovery_argument
    goros.Schema.Names.attributes_of goros.Schema.Store.discover_command
    goros.Schema.Store.discover_path goros.Schema.Store.discover_completions
    goros.Schema.Store.discover_fields goros.Schema.Store.probe_fields goros.Schema.Store.conclude
    goros.Schema.Store.category_of goros.Schema.is_argument_node goros.Schema.is_command_node
    goros.Schema.is_swallowable_inspect_err goros.Schema.path_tokens goros.Common.fields_func
    goros.Common.split_at_byte
finds_registered = refl

no_nul : Lacks 0 (text "/ip")
no_nul = ground arith
