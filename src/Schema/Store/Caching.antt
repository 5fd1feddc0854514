-- ===== src/Schema/Store/Caching.antt =====
-- What the cache gives back, for how long, and what `Discover` and `RegisterCategory` make of it.
use goros.Common.{
  ℕ, ◌+◌, ◌≤◌, Text, text_eq, text_eq_refl, ◌&&◌, List, none, some, if◌then◌else◌, ◌≡◌, inl, inr,
  ◌⊎◌, sym, ap, ◌∙◌, arith, Bool-cases, ltb, subst, Lacks, split_at_byte, split_at_byte-append,
}
use goros.Common.Assoc.{Assoc, lookup, lookup-insert, lookup-erase}
use goros.Roserr.{Result, ok, Result-cases}
use goros.Transport.{InspectNode}
use goros.Schema.{Category, CommandSchema, is_swallowable_inspect_err}
use goros.Schema.Cache.{Cache, schema_key, cache_get, cache_put, cache_delete}
use goros.Schema.Store.{Device, Store, register_category, discover}
use goros.Schema.Store.Outcome.{
  HonoursOverride, Ends, first_probe, discover-Ends, discover_absent, discover_failed,
}

-- Two commands share a cache key only if they are the same, where no path holds a NUL.
pub schema_key_injective :
    (p v p' v' : Text)
    → Lacks 0 p
    → Lacks 0 p'
    → schema_key p v ≡ schema_key p' v'
    → (p ≡ p') × (v ≡ v')
unfolding schema_key
schema_key_injective p v p' v' h h' e =
    let same =
      sym (split_at_byte-append 0 p v h)
      ∙ ap (split_at_byte 0) e
      ∙ split_at_byte-append 0 p' v' h' in
    (cc same, cc same)

-- A schema that was put into the cache at `t` is found until `t` plus the TTL, at a TTL of 0 for good,
-- and not afterwards; what the cache has under another key is found as before.
pub cache_get-cache_put :
    (t now : ℕ) (k j : Text) (sch : CommandSchema) (c : Cache)
    → (cache_get now j (cache_put t k sch c)).1 ≡ (
        if text_eq k j
        then (if ltb 0 c.ttl && ltb (t + c.ttl) now then none else some sch)
        else (cache_get now j c).1)
unfolding cache_get cache_put
cache_get-cache_put t now k j sch c =
    ground (arith, lookup-insert k j (record { schema = sch; expires = t + c.ttl }) c.entries)

-- An entry that has not expired is found, and the cache stays as it is.
pub fresh_hit :
    (t now : ℕ) (k : Text) (sch : CommandSchema) (c : Cache)
    → (now ≤ t + c.ttl) ⊎ (c.ttl ≡ 0)
    → cache_get now k (cache_put t k sch c) ≡ (cache_put t k sch c, some sch)
unfolding cache_get cache_put
fresh_hit t now k sch c (inl h) = ground (
  arith,
  lookup-insert k k (record { schema = sch; expires = t + c.ttl }) c.entries,
  text_eq_refl k,
)
fresh_hit t now k sch c (inr h) = ground (
  arith,
  lookup-insert k k (record { schema = sch; expires = t + c.ttl }) c.entries,
  text_eq_refl k,
)

evicted :
    (now : ℕ) (path verb : Text) (c : Cache)
    → cache_get now (schema_key path verb) (cache_delete path verb c)
      ≡ (cache_delete path verb c, none)
unfolding cache_get cache_delete
evicted now path verb c =
    let key = schema_key path verb in
    ground (arith, lookup-erase key key c.entries, text_eq_refl key)

module _ (device : Device) (later : ℕ) (path verb : Text) where
  stored_of_Ends :
      (c : Cache) (o : Assoc Category) (r : Store × Result CommandSchema) (s' : Store)
      (sch : CommandSchema)
      → Ends device later path verb c o r
      → r ≡ (s', ok sch)
      → s'.cache ≡ cache_put later (schema_key path verb) sch c
  stored_of_Ends c o r s' sch h e = (subst (Ends device later path verb c o) e h).0

  -- A schema that `Discover` returns after a miss is in the cache.
  pub stored :
      (now : ℕ) (s s' : Store) (c : Cache) (sch : CommandSchema)
      → cache_get now (schema_key path verb) s.cache ≡ (c, none)
      → discover device later path verb now s ≡ (s', ok sch)
      → s'.cache ≡ cache_put later (schema_key path verb) sch c
  stored now s s' c sch miss e =
      elim (Result-cases (device s.calls (first_probe device later path verb))) [
        | inr (nodes, found) ↦
            stored_of_Ends c s.overrides (discover device later path verb now s) s' sch
              (discover-Ends device later path verb now s c nodes miss found) e
        | inl (x, failed) ↦ elim (Bool-cases (is_swallowable_inspect_err x)) [
          | inl t ↦ cc (discover_absent device later path verb now s c x miss failed t)
          | inr f ↦ absurd (cc (discover_failed device later path verb now s c x miss failed f))
        ]
      ]

  pub discover_hit :
      (now : ℕ) (s : Store) (sch : CommandSchema)
      → cache_get now (schema_key path verb) s.cache ≡ (s.cache, some sch)
      → discover device later path verb now s ≡ (s, ok sch)
  unfolding discover
  discover_hit now s sch hit = ground arith

  -- After `Discover` has probed the device and returned a schema, another call for the same command
  -- within the TTL, or with no TTL at any time, returns that schema with no further probe, whatever the
  -- device would answer, and changes nothing.
  pub discover_again :
      (now now' later' : ℕ) (device' : Device) (s s' : Store) (c : Cache) (sch : CommandSchema)
      → cache_get now (schema_key path verb) s.cache ≡ (c, none)
      → discover device later path verb now s ≡ (s', ok sch)
      → (now' ≤ later + c.ttl) ⊎ (c.ttl ≡ 0)
      → discover device' later' path verb now' s' ≡ (s', ok sch)
  unfolding discover
  discover_again now now' later' device' s s' c sch miss e fresh =
      ground (
        arith,
        stored now s s' c sch miss e,
        fresh_hit later now' (schema_key path verb) sch c fresh,
      )

  -- A category that was just registered is what the next `Discover` of the command returns, if its
  -- first probe answers and it returns a schema at all.
  pub discover_registered :
      (now : ℕ) (s s' : Store) (cat : Category) (nodes : List InspectNode) (sch : CommandSchema)
      → device s.calls (first_probe device later path verb) ≡ ok nodes
      → discover device later path verb now (register_category path verb cat s) ≡ (s', ok sch)
      → sch.category ≡ cat
  unfolding register_category
  discover_registered now s s' cat nodes sch found e =
      let key = schema_key path verb in
      let s0 = register_category path verb cat s in
      let miss : cache_get now (schema_key path verb) s0.cache ≡ (s0.cache, none) =
        evicted now path verb s.cache in
      let ends =
        subst (Ends device later path verb s0.cache s0.overrides) e
          (discover-Ends device later path verb now s0 s0.cache nodes miss found) in
      let registered : lookup key s0.overrides ≡ some cat =
        ground (arith, lookup-insert key key cat s.overrides, text_eq_refl key) in
      subst (λ o. HonoursOverride o sch.category) registered ends.1
