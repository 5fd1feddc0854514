-- ===== src/Session/Examples.antt =====
-- Sessions with a device that answers everything, and with one that rejects everything.
use goros.Common.{Text, text, text_eq, true, [], ◌∷◌, some, if◌then◌else◌, ◌≡◌, refl}
use goros.Roserr.{GoError, device, ok, err, code_command_failed, code_session_closed}
use goros.Roserr.Chain.{is_code, as_device}
use goros.Proto.Sentence.{Sentence, new_sentence}
use goros.Client.Reply.{fatal_sentence}
use goros.Transport.{Command, script_command, words}
use goros.Session.{Wire, new_session, command}
use goros.Session.Probes.{command_rejected}

abbrev format : Sentence → Text
format sen = sen.word

abbrev answering : Wire
answering sent sentence = ok (record { re = []; done = some new_sentence })

abbrev trap : Sentence
trap = record new_sentence { word = text "!trap" }

abbrev rejecting : Wire
rejecting sent sentence = err (device trap)

abbrev put_one : Command
put_one = script_command (text ":put 1")

command_rejected_example :
    (failure : GoError) × (command format rejecting put_one new_session
      ≡ (record new_session { sent = words put_one ∷ [] }, err failure))
    × (is_code
          (if text_eq trap.word fatal_sentence then code_session_closed else code_command_failed)
          failure
        ≡ true)
    × (as_device failure ≡ some trap)
unfolding as_device
command_rejected_example =
    command_rejected format rejecting new_session put_one (device trap) trap refl refl
