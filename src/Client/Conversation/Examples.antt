-- ===== src/Client/Conversation/Examples.antt =====
-- A conversation of two commands.
use goros.Common.{
  Text, text, text_eq, List, [], ◌∷◌, ◌++◌, map, none, some, ◌≡◌, refl, inl, inr, arith, All,
}
use goros.Common.Assoc.{insert}
use goros.Proto.Writer.{Link, new_writer}
use goros.Proto.Writer.Laws.{Accepts}
use goros.Proto.Reader.{add_word}
use goros.Proto.Reader.RoundTrip.{add_words}
use goros.Client.Conversation.{converse}
use goros.Client.Conversation.Refinement.{
  Said, Spells, Exchange, Fits, outcome, requests_bytes, answers_bytes, after_bytes,
  converse-outcome,
}

abbrev takes_all : Link
takes_all = record { on_write = λ sent b. none; on_flush = λ sent. none }

takes_all-Accepts : Accepts takes_all
takes_all-Accepts = record { writes = λ sent b. refl; flushes = λ sent. refl }

abbrev row : Said
row = record {
  words = text "!re" ∷ text "=name=ether1" ∷ [];
  sentence = record {
    word = text "!re";
    tag = [];
    list = record { key = text "name"; value = text "ether1" } ∷ [];
    attributes = (text "name", text "ether1") ∷ [];
  };
}

abbrev finished : Said
finished = record {
  words = text "!done" ∷ [];
  sentence = record { word = text "!done"; tag = []; list = []; attributes = [] };
}

abbrev broken : Said
broken = record {
  words = text "!fatal" ∷ [];
  sentence = record { word = text "!fatal"; tag = []; list = []; attributes = [] };
}

row-Spells : Spells row
unfolding add_words add_word goros.Proto.Reader.split_pair insert goros.Common.split_at_byte text_eq
row-Spells = (((refl, omega arith), ((refl, omega arith), tt)), refl)

finished-Spells : Spells finished
unfolding add_words add_word goros.Proto.Reader.split_pair insert goros.Common.split_at_byte text_eq
finished-Spells = (((refl, omega arith), tt), refl)

broken-Spells : Spells broken
unfolding add_words add_word goros.Proto.Reader.split_pair insert goros.Common.split_at_byte text_eq
broken-Spells = (((refl, omega arith), tt), refl)

-- A row and the end, and then the end of the session.
abbrev talk : List Exchange
talk =
    record { request = text "/interface/print" ∷ []; body = row ∷ []; final = finished }
    ∷ record { request = text "/quit" ∷ []; body = []; final = broken }
    ∷ []

talk-Fits : All Fits talk
talk-Fits = (
  ((row-Spells, tt), finished-Spells, (inl refl, tt), inl refl),
  ((tt, broken-Spells, tt, inr refl), tt),
)

converse-outcome_example :
    converse takes_all new_writer (answers_bytes talk ++ text "rest") (map (λ x. x.request) talk)
    ≡ some (map outcome talk, after_bytes new_writer (requests_bytes talk), some (text "rest"))
converse-outcome_example =
    converse-outcome takes_all takes_all-Accepts talk new_writer (text "rest") talk-Fits refl refl
