-- ===== src/Schema/Store/Outcome.antt =====
-- How `Discover` ends once the cache has missed.
use goros.Common.{
  ℕ, Text, true, false, List, [], ◌∷◌, ◌++◌, Option, none, some, is_empty, ◌≡◌, refl, inl, inr, ap,
  arith, Bool-cases, Option-cases,
}
use goros.Common.Assoc.{Assoc, lookup}
use goros.Common.Sort.{IsAscending, sort_texts, sort_texts-IsAscending}
use goros.Roserr.{GoError, Result, ok, err}
use goros.Transport.{InspectNode, inspect_child, inspect_completion}
use goros.Schema.{
  Attribute, Category, CommandSchema, path_tokens, inspect_path, is_swallowable_inspect_err,
}
use goros.Schema.Names.{
  names_of_argument_nodes, sorted_attributes, attributes_of, field_discovery_argument,
}
use goros.Schema.Cache.{Cache, schema_key, cache_get, cache_put}
use goros.Schema.Store.{
  Probe, Device, Store, category_of, inspect, conclude, after, add_completions, probe_fields,
  unknown_schema, discover_fields, discover_completions, discover_path, discover_command, discover,
}

abbrev pub attribute_names : List Attribute → List Text
attribute_names [] = []
attribute_names (a ∷ as') = a.name ∷ attribute_names as'

names_attributes_of : (names : List Text) → attribute_names (attributes_of names) ≡ names
unfolding attributes_of
names_attributes_of [] = refl
names_attributes_of (n ∷ names) = ap (◌∷◌ n) (names_attributes_of names)

sorted_attributes-IsAscending :
    (names : List Text) → IsAscending (attribute_names (sorted_attributes names))
unfolding sorted_attributes
sorted_attributes-IsAscending names =
    rw (names_attributes_of (sort_texts names)) (sort_texts-IsAscending names)

-- The category of a schema is the registered one, where one is registered.
abbrev pub HonoursOverride : Option Category → Category → Type 0
HonoursOverride none c = Unit
HonoursOverride (some registered) c = c ≡ registered

module _ (device : Device) (later : ℕ) (path verb : Text) where
  -- A schema is in the cache as it was returned, it has the registered category if there is one, and
  -- its attributes ascend; an error leaves the cache alone and is none that means an absent path.
  abbrev pub Ends : Cache → Assoc Category → Store × Result CommandSchema → Type 0
  Ends c o (s, ok sch) =
      (s.cache ≡ cache_put later (schema_key path verb) sch c)
      × HonoursOverride (lookup (schema_key path verb) o) sch.category
      × IsAscending (attribute_names sch.attributes)
  Ends c o (s, err e) = (s.cache ≡ c) × (is_swallowable_inspect_err e ≡ false)

  category-HonoursOverride :
      (nodes : List InspectNode) (s : Store)
      → HonoursOverride
          (lookup (schema_key path verb) s.overrides)
          (category_of s (schema_key path verb) verb nodes)
  unfolding category_of
  category-HonoursOverride nodes s =
      elim (Option-cases (lookup (schema_key path verb) s.overrides)) [
        | inl h ↦ rw h tt
        | inr (cat, h) ↦ rw (h, category_of) refl
      ]

  conclude-Ends :
      (attrs : List Text) (nodes : List InspectNode) (s : Store)
      → Ends s.cache s.overrides (conclude device later path verb attrs nodes s)
  unfolding conclude
  conclude-Ends attrs nodes s =
      (refl, category-HonoursOverride nodes s, sorted_attributes-IsAscending attrs)

  after-Ends :
      (s : Store) (r : Result (List InspectNode))
      (good : List InspectNode → Store → Store × Result CommandSchema)
      (bad : Store → Store × Result CommandSchema)
      → ((rows : List InspectNode) → Ends s.cache s.overrides (good rows s))
      → Ends s.cache s.overrides (bad s)
      → Ends s.cache s.overrides (after device later path verb s r good bad)
  after-Ends s (ok rows) good bad g b = g rows
  after-Ends s (err e) good bad g b = elim (Bool-cases (is_swallowable_inspect_err e)) [
    | inl t ↦ rw t b
    | inr f ↦ rw f (refl, f)
  ]

  probe_fields-Ends :
      (field_arg : Text) (attrs : List Text) (nodes : List InspectNode) (s : Store)
      → Ends s.cache s.overrides (probe_fields device later path verb field_arg attrs nodes s)
  unfolding probe_fields
  probe_fields-Ends field_arg attrs nodes s =
      let (s', r) =
        inspect device later path verb inspect_completion
          (path_tokens path ++ (verb ∷ field_arg ∷ [])) s in
      after-Ends s' r (λ rows. conclude device later path verb (add_completions attrs rows) nodes)
        (conclude device later path verb attrs nodes)
        (λ rows. conclude-Ends (add_completions attrs rows) nodes s') (conclude-Ends attrs nodes s')

  discover_fields-Ends :
      (attrs : List Text) (nodes : List InspectNode) (s : Store)
      → Ends s.cache s.overrides (discover_fields device later path verb attrs nodes s)
  unfolding discover_fields
  discover_fields-Ends attrs nodes s =
      let field_arg = field_discovery_argument verb nodes in
      elim (Bool-cases (is_empty field_arg)) [
        | inl t ↦ rw t (conclude-Ends attrs nodes s)
        | inr f ↦ rw f (probe_fields-Ends field_arg attrs nodes s)
      ]

  discover_completions-Ends :
      (attrs : List Text) (nodes : List InspectNode) (s : Store)
      → Ends s.cache s.overrides (discover_completions device later path verb attrs nodes s)
  unfolding discover_completions
  discover_completions-Ends attrs nodes s =
      let (s', r) =
        inspect device later path verb inspect_completion (path_tokens path ++ (verb ∷ [])) s in
      after-Ends s' r
        (λ rows. discover_fields device later path verb (add_completions attrs rows) nodes)
        (discover_fields device later path verb attrs nodes)
        (λ rows. discover_fields-Ends (add_completions attrs rows) nodes s')
        (discover_fields-Ends attrs nodes s')

  discover_path-Ends :
      (attrs : List Text) (s : Store)
      → Ends s.cache s.overrides (discover_path device later path verb attrs s)
  unfolding discover_path
  discover_path-Ends attrs s =
      let (s', r) = inspect device later path verb inspect_child (path_tokens path) s in
      after-Ends s' r (discover_completions device later path verb attrs)
        (discover_completions device later path verb attrs [])
        (λ rows. discover_completions-Ends attrs rows s') (discover_completions-Ends attrs [] s')

  -- The first probe of `Discover`.
  abbrev pub first_probe : Probe
  first_probe = record {
    request = inspect_child;
    path = inspect_path (path_tokens path ++ (verb ∷ []));
  }

  -- `Discover` with the cache as the lookup left it.
  abbrev pub missed : Store → Cache → Store
  missed s c = record s { cache = c }

  discover-missed :
      (now : ℕ) (s : Store) (c : Cache)
      → cache_get now (schema_key path verb) s.cache ≡ (c, none)
      → discover device later path verb now s ≡ discover_command device later path verb (missed s c)
  unfolding discover
  discover-missed now s c h = ground arith

  discover_command_found :
      (s : Store) (nodes : List InspectNode)
      → device s.calls first_probe ≡ ok nodes
      → discover_command device later path verb s
        ≡ discover_path device later path verb
            (names_of_argument_nodes nodes)
            (record s { calls = s.calls ++ (first_probe ∷ []) })
  unfolding discover_command
  discover_command_found s nodes h = rw h refl

  -- Where the cache misses and the first probe answers, `Discover` ends so: a schema is put into the
  -- cache as it is returned, has the category registered for the command if there is one, and lists its
  -- attributes in ascending order; or it is an error that does not mean an absent path, and the cache
  -- stays as the lookup left it.
  pub discover-Ends :
      (now : ℕ) (s : Store) (c : Cache) (nodes : List InspectNode)
      → cache_get now (schema_key path verb) s.cache ≡ (c, none)
      → device s.calls first_probe ≡ ok nodes
      → Ends c s.overrides (discover device later path verb now s)
  discover-Ends now s c nodes miss found =
      rw (discover-missed now s c miss, discover_command_found (missed s c) nodes found)
        (discover_path-Ends (names_of_argument_nodes nodes)
          (record s { cache = c; calls = s.calls ++ (first_probe ∷ []) }))

  -- Where the first probe fails as on an absent path, `Discover` returns and caches the unknown category,
  -- whatever category is registered for the command.
  pub discover_absent :
      (now : ℕ) (s : Store) (c : Cache) (e : GoError)
      → cache_get now (schema_key path verb) s.cache ≡ (c, none)
      → device s.calls first_probe ≡ err e
      → is_swallowable_inspect_err e ≡ true
      → discover device later path verb now s ≡ (
        record s {
          cache = cache_put later (schema_key path verb) (unknown_schema device later path verb) c;
          calls = s.calls ++ (first_probe ∷ []);
        },
        ok (unknown_schema device later path verb),
      )
  unfolding discover_command
  discover_absent now s c e miss failed swallow =
      rw (discover-missed now s c miss) (rw (failed, swallow) refl)

  -- Where the first probe fails otherwise, `Discover` passes the error on after that one probe and
  -- caches nothing.
  pub discover_failed :
      (now : ℕ) (s : Store) (c : Cache) (e : GoError)
      → cache_get now (schema_key path verb) s.cache ≡ (c, none)
      → device s.calls first_probe ≡ err e
      → is_swallowable_inspect_err e ≡ false
      → discover device later path verb now s
        ≡ (record s { cache = c; calls = s.calls ++ (first_probe ∷ []) }, err e)
  unfolding discover_command
  discover_failed now s c e miss failed swallow =
      rw (discover-missed now s c miss) (rw (failed, swallow) refl)
