-- ===== src/Proto/Sentence.antt =====
-- proto/sentence.go
use goros.Common.{Text, List, []}
use goros.Common.Assoc.{Assoc}

pub record Pair : Type 0 where
  pub key : Text
  pub value : Text

-- The field `Map` is `attributes` here: a Go map has no order, and this one is only looked up.
pub record Sentence : Type 0 where
  pub word : Text
  pub tag : Text
  pub list : List Pair
  pub attributes : Assoc Text

abbrev pub new_sentence : Sentence
new_sentence = record { word = []; tag = []; list = []; attributes = [] }
