-- ===== src/Transport/Said.antt =====
-- What the words of a command say: they can be told apart again, and name its attributes.
use goros.Common.{
  Text, text, Lacks, All, true, List, [], ◌∷◌, ◌++◌, Option, none, some, ◌≡◌, ◌≢◌, ◌↔◌, refl, sym,
  ap, subst, ◌∙◌, inl, inr, arith, Option-cases, is_empty, split_at_byte, split_at_byte-append,
  append_assoc,
}
use goros.Common.Assoc.{Assoc, keys, lookup, get_or_empty, keys-lookup, lookup-absent, absent_keys}
use goros.Common.Sort.{All-sort_texts, All-sort_texts_back, sort_texts-perm_self}
use goros.Transport.{
  Command, sorted_keys, words, command_word, attribute_words, query_words, proplist_words,
}
use goros.Transport.Order.{SameMap, attribute_words-same, sorted_keys-same}
use mathlib.Core.List.{Perm}
use mathlib.Core.List.Perm

cons_eq :
    {A : Type 0} (x y : A) (a b : List A) → ◌≡◌ {A = List A} (x ∷ a) (y ∷ b) → (x ≡ y) × (a ≡ b)
cons_eq x y a b e = (cc, cc)

split_attribute :
    (k v : Text) → Lacks b'=' k → split_at_byte b'=' (k ++ text "=" ++ v) ≡ (k, some v)
split_attribute k v l = rw append_assoc (split_at_byte-append b'=' k v l)

cut_attribute :
    (k k' v v' : Text)
    → Lacks b'=' k
    → Lacks b'=' k'
    → k ++ text "=" ++ v ≡ k' ++ text "=" ++ v'
    → ◌≡◌ {A = Text × Option Text} (k, some v) (k', some v')
cut_attribute k k' v v' l l' e =
    sym (split_attribute k v l) ∙ ap (split_at_byte b'=') e ∙ split_attribute k' v' l'

some_eq : (v v' : Text) → some v ≡ some v' → v ≡ v'
some_eq v v' e = cc

-- A key and a value can be told apart where the key has no `=`.
pair_eq :
    (k k' v v' : Text)
    → Lacks b'=' k
    → Lacks b'=' k'
    → k ++ text "=" ++ v ≡ k' ++ text "=" ++ v'
    → (k ≡ k') × (v ≡ v')
pair_eq k k' v v' l l' e =
    let p = cut_attribute k k' v v' l l' e in (ap (λ r. r.0) p, some_eq v v' (ap (λ r. r.1) p))

-- The first word, if there is one, does not begin with `=`.
abbrev NoAttribute : List Text → Type 0
NoAttribute [] = Unit
NoAttribute ([] ∷ ws) = Unit
NoAttribute ((x ∷ w) ∷ ws) = x ≢ b'='

not_attribute : (w : Text) (ws ws' : List Text) → NoAttribute ws' → (b'=' ∷ w) ∷ ws ≢ ws'
not_attribute w ws [] h e = cc
not_attribute w ws ([] ∷ ws') h e = cc
not_attribute w ws ((x ∷ w') ∷ ws') h e = h (cc)

behind_attributes : (qs ps : List Text) → NoAttribute (query_words qs ++ proplist_words ps)
unfolding query_words proplist_words
behind_attributes [] [] = tt
behind_attributes [] (p ∷ ps) = λ e. omega (arith, e)
behind_attributes (q ∷ qs) ps = λ e. omega (arith, e)

not_query : (q : Text) (ws ps : List Text) → (b'?' ∷ q) ∷ ws ≢ proplist_words ps
unfolding proplist_words
not_query q ws [] e = cc
not_query q ws (p ∷ ps) e = omega (arith, (cons_eq b'?' b'.' _ _ (cons_eq _ _ _ _ e).0).0)

-- The queries end where the property list begins.
queries_eq :
    (qs qs' ps ps' : List Text)
    → query_words qs ++ proplist_words ps ≡ query_words qs' ++ proplist_words ps'
    → (qs ≡ qs') × (proplist_words ps ≡ proplist_words ps')
unfolding query_words
queries_eq [] [] ps ps' e = (refl, e)
queries_eq [] (q ∷ qs) ps ps' e = absurd (not_query q _ ps (sym e))
queries_eq (q ∷ qs) [] ps ps' e = absurd (not_query q _ ps' e)
queries_eq (q ∷ qs) (q' ∷ qs') ps ps' e =
    let (first, rest) = cons_eq (b'?' ∷ q) (b'?' ∷ q') _ _ e in
    let (same, proplist) = queries_eq qs qs' ps ps' rest in
    (cc (same, (cons_eq b'?' b'?' q q' first).1), proplist)

module _ (m m' : Assoc Text) where
  -- The attributes end where the next word does not begin with `=`.
  attributes_eq :
      (ks ks' : List Text) (rest rest' : List Text)
      → All (Lacks b'=') ks
      → All (Lacks b'=') ks'
      → NoAttribute rest
      → NoAttribute rest'
      → attribute_words m ks ++ rest ≡ attribute_words m' ks' ++ rest'
      → (ks ≡ ks') × All (λ k. get_or_empty k m ≡ get_or_empty k m') ks × (rest ≡ rest')
  unfolding attribute_words
  attributes_eq [] [] rest rest' l l' h h' e = (refl, tt, e)
  attributes_eq [] (k ∷ ks) rest rest' l l' h h' e = absurd (not_attribute _ _ rest h (sym e))
  attributes_eq (k ∷ ks) [] rest rest' l l' h h' e = absurd (not_attribute _ _ rest' h' e)
  attributes_eq (k ∷ ks) (k' ∷ ks') rest rest' l l' h h' e =
      let v = get_or_empty k m in
      let v' = get_or_empty k' m' in
      let (first, behind) =
        cons_eq (text "=" ++ k ++ text "=" ++ v) (text "=" ++ k' ++ text "=" ++ v') _ _ e in
      let (key, value) =
        pair_eq k k' v v' l.0 l'.0
          (cons_eq b'=' b'=' (k ++ text "=" ++ v) (k' ++ text "=" ++ v') first).1 in
      let (keys, values, r) = attributes_eq ks ks' rest rest' l.1 l'.1 h h' behind in
      (cc (key, keys), (cc (key, value), values), r)

absent_same :
    (m m' : Assoc Text) (k : Text)
    → sorted_keys m ≡ sorted_keys m'
    → lookup k m ≡ none
    → lookup k m' ≡ none
unfolding sorted_keys
absent_same m m' k e a =
    let here = All-sort_texts (λ j. j ≢ k) (keys m) (absent_keys k m a) in
    lookup-absent k m'
      (All-sort_texts_back (λ j. j ≢ k) (keys m') (subst (All (λ j. j ≢ k)) e here))

present_same :
    (m m' : Assoc Text) (k v v' : Text)
    → get_or_empty k m ≡ get_or_empty k m'
    → lookup k m ≡ some v
    → lookup k m' ≡ some v'
    → lookup k m ≡ lookup k m'
unfolding get_or_empty
present_same m m' k v v' h a a' =
    let same : v ≡ v' = rw (get_or_empty, a, a') at h in a ∙ ap some same ∙ sym a'

-- Maps with the same sorted keys, and the same value behind each, are the same map.
same_map :
    (m m' : Assoc Text)
    → sorted_keys m ≡ sorted_keys m'
    → All (λ k. get_or_empty k m ≡ get_or_empty k m') (sorted_keys m)
    → SameMap m m'
unfolding sorted_keys
same_map m m' e h = record {
  same_keys =
      Perm.trans (Perm.symm (sort_texts-perm_self (keys m)))
        (subst (λ ks. Perm ks (keys m')) (sym e) (sort_texts-perm_self (keys m')));
  same_values = λ k. elim (Option-cases (lookup k m)) [
    | inl a ↦ a ∙ sym (absent_same m m' k e a)
    | inr (v, a) ↦ elim (Option-cases (lookup k m')) [
      | inl a' ↦ absent_same m' m k (sym e) a' ∙ sym a'
      | inr (v', a') ↦
          present_same m m' k v v'
            (keys-lookup (λ j. get_or_empty j m ≡ get_or_empty j m') k m
              (All-sort_texts_back _ (keys m) h) a)
            a a'
    ]
  ];
}

-- What `Words` puts behind the command word.
abbrev arguments : Command → List Text
arguments c =
    attribute_words c.attributes (sorted_keys c.attributes)
    ++ (query_words c.queries ++ proplist_words c.proplist)

plain_words : (c : Command) → is_empty c.script ≡ true → words c ≡ command_word c ∷ arguments c
unfolding words
plain_words c plain =
    let ws = attribute_words c.attributes (sorted_keys c.attributes) in
    rw plain (
      ap (λ (r : List Text). command_word c ∷ r)
        (append_assoc ws (query_words c.queries) (proplist_words c.proplist)))

All-sorted_keys : (m : Assoc Text) → All (Lacks b'=') (keys m) → All (Lacks b'=') (sorted_keys m)
unfolding sorted_keys
All-sorted_keys m l = All-sort_texts (Lacks b'=') (keys m) l

-- Other commands with the same attributes have the same attribute words.
same_attribute_words :
    (m m' : Assoc Text)
    → SameMap m m'
    → attribute_words m (sorted_keys m) ≡ attribute_words m' (sorted_keys m')
same_attribute_words m m' same =
    attribute_words-same m m' same (sorted_keys m)
    ∙ ap (attribute_words m') (sorted_keys-same m m' same)

-- Two commands without a script, and without a key that has an `=`, have the same `Words` exactly
-- when they have the same command word, the same attributes, in whatever order these are met, the
-- same queries in order, and the same property list word, or both none.
pub words_same_iff :
    (c c' : Command)
    → is_empty c.script ≡ true
    → is_empty c'.script ≡ true
    → All (Lacks b'=') (keys c.attributes)
    → All (Lacks b'=') (keys c'.attributes)
    → (words c ≡ words c') ↔ (
        (command_word c ≡ command_word c')
        × SameMap c.attributes c'.attributes
        × (c.queries ≡ c'.queries)
        × (proplist_words c.proplist ≡ proplist_words c'.proplist))
words_same_iff c c' plain plain' l l' = (
  λ e.
      let (first, behind) =
        cons_eq (command_word c) (command_word c') (arguments c) (arguments c')
          (sym (plain_words c plain) ∙ e ∙ plain_words c' plain') in
      let (sorted, values, rest) =
        attributes_eq c.attributes c'.attributes (sorted_keys c.attributes)
          (sorted_keys c'.attributes) (query_words c.queries ++ proplist_words c.proplist)
          (query_words c'.queries ++ proplist_words c'.proplist) (All-sorted_keys c.attributes l)
          (All-sorted_keys c'.attributes l') (behind_attributes c.queries c.proplist)
          (behind_attributes c'.queries c'.proplist) behind in
      let (queries, proplist) = queries_eq c.queries c'.queries c.proplist c'.proplist rest in
      (first, same_map c.attributes c'.attributes sorted values, queries, proplist),
  λ (first, same, queries, proplist).
      let attributes = same_attribute_words c.attributes c'.attributes same in
      plain_words c plain ∙ cc (first, attributes, queries, proplist) ∙ sym (plain_words c' plain'),
)
