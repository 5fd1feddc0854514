-- ===== src/Client/Translate/RoundTrip.antt =====
-- `rawSentenceWords` gives the words back that a sentence was read from, up to what the reader drops.
use goros.Common.{
  Text, text, true, false, List, [], ◌∷◌, ◌++◌, some, is_empty, has_prefix, drop_prefix,
  split_at_byte, split_at_byte-append, split_at_byte-Lacks, Lacks, All, ◌≡◌, refl, sym, subst, ◌∙◌,
  ap, arith, inl, inr, Bool-cases, append_assoc, append-nil,
}
use goros.Common.Assoc.{Assoc, insert}
use goros.Roserr.{Result, ok, Result-cases}
use goros.Proto.Sentence.{Pair, Sentence, new_sentence}
use goros.Proto.Reader.{split_pair, add_word}
use goros.Proto.Reader.RoundTrip.{add_words}
use goros.Client.Translate.{pair_words, tag_words, raw_sentence_words}

-- The map that the pairs make, one after the other.
abbrev pub insert_pairs : Assoc Text → List Pair → Assoc Text
insert_pairs m [] = m
insert_pairs m (p ∷ list) = insert_pairs (insert p.key p.value m) list

-- What every sentence of the reader has: keys hold no `=`, the map is what the pairs make, and only
-- a sentence with a word has more than it.
pub record IsRead (sen : Sentence) : Type 0 where
  pub keys_lack : All (λ (p : Pair). Lacks b'=' p.key) sen.list
  pub map_of_list : sen.attributes ≡ insert_pairs [] sen.list
  pub named : is_empty sen.word ≡ true → sen ≡ new_sentence

split_word : (p : Pair) → Lacks b'=' p.key → split_pair (p.key ++ text "=" ++ p.value) ≡ p
unfolding split_pair
split_word p h =
    let e : split_at_byte b'=' (p.key ++ text "=" ++ p.value) ≡ (p.key, some p.value) =
      rw append_assoc (split_at_byte-append b'=' p.key p.value h) in
    rw (split_pair, e) refl

add_pair :
    (sen : Sentence) (p : Pair)
    → is_empty sen.word ≡ false
    → Lacks b'=' p.key
    → add_word sen (text "=" ++ p.key ++ text "=" ++ p.value)
      ≡ ok (record sen {
        list = sen.list ++ (p ∷ []);
        attributes = insert p.key p.value sen.attributes;
      })
unfolding add_word
add_pair sen p w h = rw w (rw (split_word p h) refl)

add_pairs :
    (list : List Pair) (sen : Sentence) (more : List Text)
    → is_empty sen.word ≡ false
    → All (λ (p : Pair). Lacks b'=' p.key) list
    → add_words sen (pair_words list ++ more)
      ≡ add_words
          (record sen { list = sen.list ++ list; attributes = insert_pairs sen.attributes list })
          more
unfolding add_words pair_words
add_pairs [] sen more w h = rw append-nil refl
add_pairs (p ∷ list) sen more w h =
    rw (add_words, add_pair sen p w h.0)
      (add_pairs list
          (record sen {
            list = sen.list ++ (p ∷ []);
            attributes = insert p.key p.value sen.attributes;
          })
          more w h.1
        ∙ rw append_assoc refl)

add_tag :
    (tag : Text) (sen : Sentence)
    → is_empty sen.word ≡ false
    → sen.tag ≡ []
    → add_words sen (tag_words tag) ≡ ok (record sen { tag = tag })
unfolding add_words add_word
add_tag [] sen w h = rw (← h) refl
add_tag (c ∷ tag) sen w h = rw (add_words, w) refl

raw_words_named :
    (sen : Sentence)
    → IsRead sen
    → is_empty sen.word ≡ false
    → add_words new_sentence (raw_sentence_words sen) ≡ ok sen
unfolding add_words add_word
raw_words_named sen r w =
    add_pairs sen.list (record new_sentence { word = sen.word }) (tag_words sen.tag) w r.keys_lack
    ∙ add_tag sen.tag
        (record new_sentence {
          word = sen.word;
          list = sen.list;
          attributes = insert_pairs [] sen.list;
        })
        w refl
    ∙ rw (← r.map_of_list) refl

raw_words_back :
    (sen : Sentence) → IsRead sen → add_words new_sentence (raw_sentence_words sen) ≡ ok sen
unfolding add_words add_word pair_words
raw_words_back sen r = elim (Bool-cases (is_empty sen.word)) [
  | inr w ↦ raw_words_named sen r w
  | inl w ↦ rw (r.named w) refl
]

insert_pairs-append :
    (m : Assoc Text) (list : List Pair) (p : Pair)
    → insert_pairs m (list ++ (p ∷ [])) ≡ insert p.key p.value (insert_pairs m list)
insert_pairs-append m [] p = refl
insert_pairs-append m (q ∷ list) p = insert_pairs-append (insert q.key q.value m) list p

All-snoc :
    (list : List Pair) (p : Pair)
    → All (λ (q : Pair). Lacks b'=' q.key) list
    → Lacks b'=' p.key
    → All (λ (q : Pair). Lacks b'=' q.key) (list ++ (p ∷ []))
All-snoc [] p h l = (l, tt)
All-snoc (q ∷ list) p h l = (h.0, All-snoc list p h.1 l)

key-Lacks : (b : Text) → Lacks b'=' (split_pair b).key
unfolding split_pair
key-Lacks b = split_at_byte-Lacks b'=' b

ok_eq : (x y : Sentence) → ◌≡◌ {A = Result Sentence} (ok x) (ok y) → x ≡ y
ok_eq x y e = cc e

-- A word that is taken keeps the sentence one of the reader's.
add_word-IsRead :
    (sen sen' : Sentence) (b : Text)
    → IsRead sen
    → is_empty b ≡ false
    → add_word sen b ≡ ok sen'
    → IsRead sen'
unfolding add_word
add_word-IsRead sen sen' b r full e = elim (Bool-cases (is_empty sen.word)) [
  | inl w ↦ subst IsRead (ok_eq (record sen { word = b }) sen' (rw w at e)) (record {
    keys_lack = r.keys_lack;
    map_of_list = r.map_of_list;
    named = λ h. absurd (cc (h, full));
  })
  | inr w ↦ elim (Bool-cases (has_prefix (text ".tag=") b)) [
    | inl t ↦
        subst IsRead
          (ok_eq (record sen { tag = drop_prefix (text ".tag=") b }) sen' (rw (w, t) at e))
          (record {
            keys_lack = r.keys_lack;
            map_of_list = r.map_of_list;
            named = λ h. absurd (cc (h, w));
          })
    | inr t ↦ elim (Bool-cases (has_prefix (text "=") b)) [
      | inr q ↦ absurd (cc (rw (w, t, q) at e))
      | inl q ↦
          let p = split_pair (drop_prefix (text "=") b) in
          subst IsRead
            (ok_eq
              (record sen {
                list = sen.list ++ (p ∷ []);
                attributes = insert p.key p.value sen.attributes;
              })
              sen' (rw (w, t, q) at e))
            (record {
              keys_lack = All-snoc sen.list p r.keys_lack (key-Lacks (drop_prefix (text "=") b));
              map_of_list =
                  ap (insert p.key p.value) r.map_of_list ∙ sym (insert_pairs-append [] sen.list p);
              named = λ h. absurd (cc (h, w));
            })
    ]
  ]
]

add_words-IsRead :
    (ws : List Text) (sen sen' : Sentence)
    → IsRead sen
    → All (λ w. is_empty w ≡ false) ws
    → add_words sen ws ≡ ok sen'
    → IsRead sen'
unfolding add_words
add_words-IsRead [] sen sen' r full e = subst IsRead (ok_eq sen sen' e) r
add_words-IsRead (w ∷ ws) sen sen' r full e = elim (Result-cases (add_word sen w)) [
  | inl (x, q) ↦ absurd (ground arith)
  | inr (next, q) ↦
      add_words-IsRead ws next sen' (add_word-IsRead sen next w r full.0 q) full.1 (ground arith)
]

-- Every sentence that the reader makes of words is what it would make of its raw words again: they
-- lose nothing of a sentence but the words that the reader itself passes over.
pub raw_sentence_words_back :
    (ws : List Text) (sen : Sentence)
    → All (λ w. is_empty w ≡ false) ws
    → add_words new_sentence ws ≡ ok sen
    → add_words new_sentence (raw_sentence_words sen) ≡ ok sen
raw_sentence_words_back ws sen full e = raw_words_back sen (
    add_words-IsRead ws new_sentence sen
      (record { keys_lack = tt; map_of_list = refl; named = λ h. refl }) full e)
