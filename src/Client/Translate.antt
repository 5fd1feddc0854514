-- ===== src/Client/Translate.antt =====
-- The translations of client_transport.go: errors, replies and sentences of the client in canonical form.
pub mod RoundTrip
use goros.Common.{Text, text, text_eq, List, [], ◌∷◌, ◌++◌, none, some, if◌then◌else◌, is_empty}
use goros.Common.Assoc.{get_or_empty}
use goros.Roserr.{
  GoError, Context, code_command_failed, code_session_closed, with_cause, with_context, new_error,
}
use goros.Roserr.Chain.{as_device}
use goros.Proto.Sentence.{Pair, Sentence}
use goros.Client.Reply.{fatal_sentence, device_error_text}
use goros.Client.Reply as Legacy
use goros.Transport.{Reply}

abbrev pub native_context : Context
native_context = record { via = text "native-api"; host = []; port = 0; path = []; extra = [] }

abbrev summary_of : (Sentence → Text) → Sentence → Text
summary_of format sen =
    let message = get_or_empty (text "message") sen.attributes in
    if is_empty message then device_error_text format sen else message

-- `TranslateError`; `format` is `Sentence.String`.
unfoldable pub translate_error : (Sentence → Text) → GoError → GoError
translate_error format e = elim (as_device e) [
  | none ↦ e
  | some sen ↦
      new_error
        (if text_eq sen.word fatal_sentence then code_session_closed else code_command_failed)
        (summary_of format sen) (with_cause e ∷ with_context native_context ∷ [])
]

unfoldable pub pair_words : List Pair → List Text
pair_words [] = []
pair_words (p ∷ list) = (text "=" ++ p.key ++ text "=" ++ p.value) ∷ pair_words list

abbrev pub tag_words : Text → List Text
tag_words [] = []
tag_words (c ∷ tag) = (text ".tag=" ++ (c ∷ tag)) ∷ []

-- `rawSentenceWords`
abbrev pub raw_sentence_words : Sentence → List Text
raw_sentence_words sen = sen.word ∷ (pair_words sen.list ++ tag_words sen.tag)

abbrev pub translate_sentence : Sentence → Reply
translate_sentence sen = record {
  kind = sen.word;
  attributes = sen.attributes;
  tag = sen.tag;
  raw_words = raw_sentence_words sen;
}

abbrev translate_rows : List Sentence → List Reply
translate_rows [] = []
translate_rows (sen ∷ sens) = translate_sentence sen ∷ translate_rows sens

-- `TranslateReply`
abbrev pub translate_reply : Legacy.Reply → List Reply
translate_reply r =
    translate_rows r.re ++ elim r.done [ none ↦ [] | some sen ↦ translate_sentence sen ∷ [] ]
