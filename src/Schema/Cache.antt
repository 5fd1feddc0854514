-- ===== src/Schema/Cache.antt =====
-- schema/cache.go. Times are numbers of nanoseconds; an operation takes the time at which it runs.
use goros.Common.{
  ℕ, ◌+◌, ◌*◌, ◌^◌, Text, ◌&&◌, [], ◌∷◌, ◌++◌, Option, none, some, if◌then◌else◌, ltb,
}
use goros.Common.Assoc.{Assoc, lookup, insert, erase}
use goros.Schema.{CommandSchema}

abbrev pub default_schema_ttl : ℕ
default_schema_ttl = 30 * 10 ^ 9

unfoldable pub schema_key : Text → Text → Text
schema_key path verb = path ++ (0 ∷ verb)

pub record Entry : Type 0 where
  pub schema : CommandSchema
  pub expires : ℕ

pub record Cache : Type 0 where
  pub ttl : ℕ
  pub entries : Assoc Entry

abbrev pub new_cache_with_ttl : ℕ → Cache
new_cache_with_ttl ttl = record { ttl = ttl; entries = [] }

abbrev pub new_cache : Cache
new_cache = new_cache_with_ttl default_schema_ttl

unfoldable pub cache_get : ℕ → Text → Cache → Cache × Option CommandSchema
cache_get now key c = elim (lookup key c.entries) [
  | none ↦ (c, none)
  | some e ↦
      if ltb 0 c.ttl && ltb e.expires now
      then (record c { entries = erase key c.entries }, none)
      else (c, some e.schema)
]

unfoldable pub cache_put : ℕ → Text → CommandSchema → Cache → Cache
cache_put now key s c = record c {
  entries = insert key (record { schema = s; expires = now + c.ttl }) c.entries;
}

unfoldable pub cache_delete : Text → Text → Cache → Cache
cache_delete path verb c = record c { entries = erase (schema_key path verb) c.entries }

unfoldable pub cache_clear : Cache → Cache
cache_clear c = record c { entries = [] }
