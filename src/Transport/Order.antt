-- ===== src/Transport/Order.antt =====
-- A command's renderings do not depend on the order in which a range meets the attributes.
use goros.Common.{Text, List, [], ◌∷◌, ◌≡◌, refl, arith}
use goros.Common.Assoc.{Assoc, keys, lookup, get_or_empty}
use goros.Common.Sort.{sort_texts-perm}
use goros.Transport.{
  Command, sorted_keys, render_attributes, render_rest, cli, console_cli, words, attribute_words,
  cli_attribute,
}
use mathlib.Core.List.{Perm}

-- The same map met in another order: the keys are a rearrangement, and each finds the same value.
pub record SameMap (m m' : Assoc Text) : Type 0 where
  pub same_keys : Perm (keys m) (keys m')
  pub same_values : (k : Text) → lookup k m ≡ lookup k m'

module _ (m m' : Assoc Text) (same : SameMap m m') where
  pub sorted_keys-same : sorted_keys m ≡ sorted_keys m'
  unfolding sorted_keys
  sorted_keys-same = sort_texts-perm same.same_keys

  get_or_empty-same : (k : Text) → get_or_empty k m ≡ get_or_empty k m'
  unfolding get_or_empty
  get_or_empty-same k = ground (arith, same.same_values k)

  render_attributes-same :
      (f : Text → Text → Text) (ks : List Text)
      → render_attributes f m ks ≡ render_attributes f m' ks
  unfolding render_attributes
  render_attributes-same f [] = refl
  render_attributes-same f (k ∷ ks) = cc (get_or_empty-same k, render_attributes-same f ks)

  pub attribute_words-same : (ks : List Text) → attribute_words m ks ≡ attribute_words m' ks
  unfolding attribute_words
  attribute_words-same [] = refl
  attribute_words-same (k ∷ ks) = cc (get_or_empty-same k, attribute_words-same ks)

render_rest-same :
    (c : Command) (m : Assoc Text)
    → SameMap c.attributes m
    → render_rest c ≡ render_rest (record c { attributes = m })
unfolding render_rest
render_rest-same c m same = cc (
  sorted_keys-same c.attributes m same,
  render_attributes-same c.attributes m same cli_attribute (sorted_keys m),
)

-- `CLI`, `ConsoleCLI` and `Words` of a command are the same in whatever order its attributes are met.
pub renderings_same :
    (c : Command) (m : Assoc Text)
    → SameMap c.attributes m
    → (cli c ≡ cli (record c { attributes = m }))
      × (console_cli c ≡ console_cli (record c { attributes = m }))
      × (words c ≡ words (record c { attributes = m }))
unfolding cli console_cli words
renderings_same c m same = (
  cc (render_rest-same c m same),
  cc (render_rest-same c m same),
  cc (
    sorted_keys-same c.attributes m same,
    attribute_words-same c.attributes m same (sorted_keys m),
  ),
)
