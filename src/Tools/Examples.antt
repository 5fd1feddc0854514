-- ===== src/Tools/Examples.antt =====
-- The programs on concrete inputs.
use goros.Common.{Text, text, [], ◌∷◌, List, none, some, ◌≡◌, refl, map, true, false, arith}
use goros.Common.Assoc.{get_or_empty, lookup}
use goros.Proto.Sentence.{Sentence, new_sentence}
use goros.Tools.{split}
use goros.Tools.Table.{table_text}
use goros.Tools.Table.Laws.{read_table, values_of, read_table-table_text}
use goros.Tools.Programs.{row, channel_closed}
use goros.Tools.Streams.{read_stream}

abbrev ether1 : Sentence
ether1 = record new_sentence {
  word = text "!re";
  attributes = (text "name", text "ether1") ∷ (text "rx-byte", text "7") ∷ [];
}

abbrev bridge : Sentence
bridge = record new_sentence { word = text "!re"; attributes = (text "name", text "bridge") ∷ [] }

abbrev properties : List Text
properties = text "name" ∷ text "rx-byte" ∷ []

splits : split b',' (text "name,rx-byte") ≡ properties
unfolding split
splits = refl

counts :
    read_stream 1 (text "<nil>") 0 (row ether1 ∷ channel_closed ∷ [])
    ≡ text "[stream1] received sentence #1\n[stream1] ENDED after 1 sentences (err=<nil>)\n"
unfolding read_stream goros.Common.Decimal.decimal
counts = refl

read_table-table_text_example :
    read_table (table_text properties (ether1 ∷ bridge ∷ []))
    ≡ map (values_of properties) (ether1 ∷ bridge ∷ [])
unfolding get_or_empty lookup goros.Common.text_eq
read_table-table_text_example =
    read_table-table_text properties (ether1 ∷ bridge ∷ []) (omega arith)
