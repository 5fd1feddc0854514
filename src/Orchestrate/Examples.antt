-- ===== src/Orchestrate/Examples.antt =====
-- A pipeline over a device that accepts every sentence, and over the bytes of its answers.
use goros.Common.{Text, text, List, [], ◌∷◌, none, some, All, ◌≡◌, refl, inl, inr, arith}
use goros.Roserr.{ok, err, canceled}
use goros.Proto.Sentence.{Sentence, new_sentence}
use goros.Transport.{Command, script_command}
use goros.Session.{Wire}
use goros.Proto.Writer.{Link}
use goros.Proto.Writer.Laws.{Accepts}
use goros.Proto.Reader.{add_word}
use goros.Common.Assoc.{insert}
use goros.Client.Conversation.Refinement.{Said, Fits}
use goros.Client.Conversation.OnWire.{Answers, exchange, wire_of, OnWire}
use goros.Orchestrate.OnWire.{Adds, run_structured-OnWire}
use goros.Orchestrate.{
  Pipeline, inspect_schema, ensure_run, new_pipeline, validate_command, run_structured,
}
use goros.Schema.{CommandSchema}
use goros.Schema.Store.{discover}
use goros.Schema.Cache.{schema_key, cache_get, cache_put, new_cache}
use goros.Session.{probe_inspect, probe_parse, inspect_nodes, command, list_replies}
use goros.Orchestrate.Metrics.{metrics, inspect_schema_again}
use goros.Common.Assoc.{lookup}
use goros.Common.{text_eq, ℕ}
use goros.Transport.Examples.{add_user, other_order, same_map}
use goros.Gate.Attributes.Order.{reordered}
use goros.Orchestrate.Order.{run_structured_same}
use goros.Orchestrate.Guard.{
  Probed, Guarded, validate_command_sends, run_structured-Guarded, IsProbe,
}

abbrev format : Sentence → Text
format sen = sen.word

abbrev answer : Sentence
answer = record new_sentence { word = text "!done"; attributes = (text "ret", text "probe") ∷ [] }

abbrev answering : Wire
answering sent sentence = ok (record { re = []; done = some answer })

abbrev remove_all : Command
remove_all = script_command (text "/ip/address/remove [find]")

validate_command_sends_example :
    Probed new_pipeline.session
      (validate_command format answering 5 4 remove_all new_pipeline).0.session
validate_command_sends_example = validate_command_sends format answering 5 4 remove_all new_pipeline

run_structured-Guarded_example :
    Guarded format answering 5 4 remove_all
      (validate_command format answering 5 4 remove_all new_pipeline)
      (run_structured format answering 5 4 remove_all new_pipeline)
run_structured-Guarded_example = run_structured-Guarded format answering 5 4 remove_all new_pipeline

-- The device that answers every sentence with `!done`, over a connection that takes everything.
abbrev done_said : Said
done_said = record {
  words = text "!done" ∷ text "=ret=probe" ∷ [];
  sentence = record new_sentence {
    word = text "!done";
    list = record { key = text "ret"; value = text "probe" } ∷ [];
    attributes = (text "ret", text "probe") ∷ [];
  };
}

abbrev agreeable : Answers
agreeable sent ws = ([], done_said)

abbrev open_link : Link
open_link = record { on_write = λ sent b. none; on_flush = λ sent. none }

open_link-Accepts : Accepts open_link
open_link-Accepts = record { writes = λ sent b. refl; flushes = λ sent. refl }

agreeable-Fits : (sent : List (List Text)) (ws : List Text) → Fits (exchange agreeable sent ws)
unfolding add_word goros.Proto.Reader.split_pair insert goros.Common.split_at_byte
    goros.Proto.Reader.RoundTrip.add_words goros.Common.text_eq
agreeable-Fits sent ws =
    (tt, (((refl, omega arith), ((refl, omega arith), tt)), refl), tt, inl refl)

run_structured-OnWire_example :
    All IsProbe
      (validate_command format (wire_of agreeable) 5 4 remove_all new_pipeline).0.session.sent
    × Adds remove_all
        (validate_command format (wire_of agreeable) 5 4 remove_all new_pipeline)
        (run_structured format (wire_of agreeable) 5 4 remove_all new_pipeline).0.session.sent
    × OnWire agreeable open_link
        (run_structured format (wire_of agreeable) 5 4 remove_all new_pipeline).0.session.sent
        (text "rest")
run_structured-OnWire_example =
    run_structured-OnWire format agreeable open_link 5 4 remove_all (text "rest") open_link-Accepts
      agreeable-Fits

-- A session whose device answers every probe without rows.
abbrev inspected_once : Pipeline
inspected_once = (inspect_schema format answering 5 4 (text "/ip") (text "set") new_pipeline).0

abbrev no_attributes : CommandSchema
no_attributes = record {
  path = text "/ip";
  verb = text "set";
  category = text "unknown";
  attributes = [];
  source = text "inspect child+completion";
}

inspects :
    inspect_schema format answering 5 4 (text "/ip") (text "set") new_pipeline
    ≡ (inspected_once, ok no_attributes)
unfolding inspect_schema ensure_run discover cache_get cache_put lookup insert text_eq schema_key
    probe_inspect probe_parse inspect_nodes command list_replies goros.Schema.Store.discover_command
    goros.Schema.Store.discover_path goros.Schema.Store.discover_completions
    goros.Schema.Store.discover_fields goros.Schema.Names.field_discovery_argument
    goros.Schema.Store.conclude goros.Schema.Store.category_of goros.Schema.Names.sorted_attributes
    goros.Schema.Names.has_command_node goros.Common.Sort.sort_texts goros.Schema.Names.merge_names
    goros.Schema.Names.usable_completion_names goros.Schema.extract_completion_names
    goros.Schema.Names.names_of_argument_nodes
inspects = refl

-- A device that answers nothing more.
abbrev silent : Wire
silent sent sentence = err canceled

inspect_schema_again_example :
    (q' : Pipeline) × (inspect_schema format silent 9 8 (text "/ip") (text "set") inspected_once
      ≡ (q', ok no_attributes))
    × (q'.session.sent ≡ inspected_once.session.sent)
    × ((g1 g2 : ℕ) → metrics q'.session g1 g2 ≡ metrics inspected_once.session g1 g2)
unfolding ensure_run probe_inspect probe_parse inspect_nodes command list_replies cache_get lookup
inspect_schema_again_example =
    inspect_schema_again format answering silent 5 4 9 8 (text "/ip") (text "set") new_pipeline
      inspected_once new_cache no_attributes refl inspects (inl (omega arith))

run_structured_same_example :
    run_structured format answering 5 4 add_user new_pipeline
    ≡ run_structured format answering 5 4 (reordered add_user other_order) new_pipeline
run_structured_same_example =
    run_structured_same add_user other_order same_map format answering 5 4 new_pipeline
