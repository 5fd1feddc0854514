-- ===== src/Transport/Examples.antt =====
-- Renderings of a command with two attributes, and of values that need quotes.
use goros.Common.{
  ◌↔◌, All, List, Text, text, text_eq_iff, [], ◌∷◌, ◌++◌, some, none, true, ◌≡◌, refl, arith, Lacks,
}
use goros.Common.Assoc.{Assoc, keys, lookup}
use goros.Transport.{
  Command, cli, console_cli, words, command_word, proplist_words, quote_cli_value, needs_quotes,
}
use goros.Transport.Order.{SameMap}
use goros.Transport.Said.{words_same_iff}
use goros.Transport.Literal.{closed, unended, read_literal}
use goros.Transport.Quoting.{read_literal-quote_cli_value, quote_cli_value_open}
use mathlib.Core.List.Perm

abbrev pub one_order : Assoc Text
one_order = (text "name", text "a b") ∷ (text "comment", text "x") ∷ []

abbrev pub other_order : Assoc Text
other_order = (text "comment", text "x") ∷ (text "name", text "a b") ∷ []

abbrev pub add_user : Command
add_user = record {
  path = text "/ppp/secret";
  verb = text "add";
  attributes = one_order;
  queries = [];
  proplist = [];
  script = [];
}

pub same_map : SameMap one_order other_order
unfolding lookup
same_map = record {
  same_keys = Perm.swap (text "comment") (text "name") [];
  same_values = λ k. ground (arith, text_eq_iff (text "name") k, text_eq_iff (text "comment") k);
}

words_test : words add_user ≡ text "/ppp/secret/add" ∷ text "=comment=x" ∷ text "=name=a b" ∷ []
unfolding words goros.Common.trim_right_by goros.Transport.sorted_keys goros.Common.Sort.sort_texts
    goros.Common.Sort.text_le goros.Common.Assoc.get_or_empty lookup goros.Common.text_eq
words_test = refl

cli_test : cli add_user ≡ text "/ppp/secret/add comment=x name=\"a b\""
unfolding cli goros.Transport.render_rest goros.Transport.render_attributes
    goros.Transport.sorted_keys goros.Common.Sort.sort_texts goros.Common.Sort.text_le
    quote_cli_value goros.Common.Assoc.get_or_empty lookup goros.Common.text_eq
cli_test = refl

-- The same command, its attributes met in another order.
abbrev add_user_again : Command
add_user_again = record add_user { attributes = other_order }

plain_keys : All (Lacks b'=') (keys one_order) × All (Lacks b'=') (keys other_order)
plain_keys = ground arith

words_same_iff_example : (words add_user ≡ words add_user_again) ↔ (
    (command_word add_user ≡ command_word add_user_again)
    × SameMap one_order other_order
    × (◌≡◌ {A = List Text} [] [])
    × (proplist_words [] ≡ proplist_words []))
words_same_iff_example = words_same_iff add_user add_user_again refl refl plain_keys.0 plain_keys.1

no_backslash : Lacks 92 (text "a \"b\"")
no_backslash = ground arith

no_dollar : Lacks b'$' (text "a \"b\"")
no_dollar = ground arith

read_literal-quote_cli_value_example :
    read_literal (quote_cli_value (text "a \"b\"") ++ text " x")
    ≡ closed (text "a \"b\"") (text " x")
unfolding needs_quotes
read_literal-quote_cli_value_example =
    read_literal-quote_cli_value (text "a \"b\"") (text " x") refl no_backslash no_dollar

quote_cli_value_open_example :
    read_literal (quote_cli_value (text "a \"b\"" ++ (92 ∷ []))) ≡ unended
unfolding needs_quotes
quote_cli_value_open_example = quote_cli_value_open (text "a \"b\"") refl no_backslash no_dollar
