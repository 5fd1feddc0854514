-- ===== src/Gate/Attributes.antt =====
-- `Gate2` of gate/gate2.go over the schema store.
pub mod Laws
pub mod Order
use goros.Common.{
  ℕ, Text, text, text_eq, Bool, true, false, List, [], ◌∷◌, ◌++◌, Option, none, some, if◌then◌else◌,
  join_with,
}
use goros.Common.Assoc.{keys}
use goros.Common.Sort.{sort_texts}
use goros.Roserr.{
  GoError, Result, ok, err, text_value, texts_value, code_validation_unknown_attribute,
  with_context, new_error,
}
use goros.Transport.{Command}
use goros.Schema.{CommandSchema, category_unknown, has_attribute}
use goros.Schema.Store.{Device, Store, discover}
use goros.Schema.Store.Outcome.{attribute_names}
use goros.Gate.Syntax.{skips}

-- The keys that the schema does not know.
unfoldable pub unknown_keys : CommandSchema → List Text → List Text
unknown_keys sch [] = []
unknown_keys sch (k ∷ ks) =
    let rest = unknown_keys sch ks in if has_attribute sch k then rest else k ∷ rest

abbrev pub unknown_attributes : Command → CommandSchema → List Text → GoError
unknown_attributes cmd sch missing =
    new_error code_validation_unknown_attribute
      (text "unknown attribute(s): " ++ join_with (text ", ") missing)
      (with_context (record {
        via = text "gate2";
        host = [];
        port = 0;
        path = cmd.path;
        extra =
            (text "path", text_value cmd.path)
            ∷ (text "verb", text_value cmd.verb)
            ∷ (text "missing", texts_value missing)
            ∷ (text "available", texts_value (attribute_names sch.attributes))
            ∷ (text "validationSource", text_value sch.source)
            ∷ [];
      })
        ∷ [])

-- What is left to do with the keys that the schema does not know.
abbrev pub report : Command → CommandSchema → List Text → Option GoError
report cmd sch [] = none
report cmd sch (k ∷ ks) = some (unknown_attributes cmd sch (sort_texts (k ∷ ks)))

abbrev pub judge : Command → Result CommandSchema → Option GoError
judge cmd (err e) = some e
judge cmd (ok sch) =
    if text_eq sch.category category_unknown
    then none
    else report cmd sch (unknown_keys sch (keys cmd.attributes))

-- `Validate`; `supports` is what `SupportsInspect` returns, `none` where it is nil.
unfoldable pub validate : Device → ℕ → ℕ → Option Bool → Command → Store → Store × Option GoError
validate device later now supports cmd s =
    if skips supports
    then (s, none)
    else (let (s', r) = discover device later cmd.path cmd.verb now s in (s', judge cmd r))
