-- ===== src/Ssh/Examples.antt =====
-- The SSH transport over small platforms.
use goros.Common.{
  Text, text, ℕ, Bool, true, false, List, [], ◌∷◌, ◌++◌, Option, none, some, ◌≡◌, ◌⊎◌, refl, inl,
  inr, join_with,
}
use goros.Roserr.{code_connection_refused, Info, GoError, Result, ok, err, eof, external}
use goros.Roserr.Chain.{as_ros, is_code}
use goros.Roserr.Render.{Formats}
use goros.Ssh.Output.{clean_console_output, trim_lines}
use goros.Ssh.Output.Kept.{Kept, clean_console_output-Kept}
use goros.Ssh.Output.Ends.{LinesOf, AllTrimmed}
use goros.Ssh.HostKeys.{callbacks, accept_new, callbacks-accept_new}
use goros.Ssh.Errors.{map_ssh_error, map_ssh_error_lem, Mapped}
use goros.Ssh.Dial.{
  Platform, SshClient, DialOption, default_config, apply_dial_options, with_password,
  with_private_key, dial,
}
use goros.Ssh.Dial.Laws.{DialEnds, dial-Ends}
use goros.Ssh.Session.{Call, output, exited, run_open}
use goros.Ssh.Session.Laws.{Succeeds, FromContext, Failure, run_open-Ends}
use goros.Common.{◌↔◌}
use goros.Ssh.Session.{validate_line}
use goros.Ssh.Session.Gate.{Parsed, validate_line_accepts_iff}

-- A line, an indented one with a tab behind it, and a blank one.
abbrev console_text : Text
console_text = 13 ∷ 10 ∷ text "a" ++ (13 ∷ 10 ∷ text " b") ++ (9 ∷ 10 ∷ [])

cleaned_test : clean_console_output console_text ≡ text "a" ++ (10 ∷ text " b")
unfolding clean_console_output trim_lines goros.Ssh.Output.drop_blank_back
    goros.Ssh.Output.drop_blank_front goros.Ssh.Output.split_lines goros.Ssh.Output.replace_cr
    goros.Ssh.Output.replace_crlf goros.Ssh.Output.is_blank goros.Common.trim_space
cleaned_test = refl

clean_console_output-Kept_example :
    (lines : List Text) × (kept : List Text) × (outs : List Text) × LinesOf console_text lines
    × Kept lines kept
    × AllTrimmed kept outs
    × (clean_console_output console_text ≡ join_with (10 ∷ []) outs)
clean_console_output-Kept_example = clean_console_output-Kept console_text

-- A host presents a key, another host another one, and the first host that one too.
abbrev presented : List (Text × Text)
presented =
    (text "r1", text "k1")
    ∷ (text "r2", text "k2")
    ∷ (text "r1", text "k2")
    ∷ (text "r1", text "k1")
    ∷ []

callbacks-accept_new_example : callbacks [] presented ≡ accept_new [] presented
callbacks-accept_new_example = callbacks-accept_new presented

abbrev plain_formats : Formats
plain_formats = record { sentence = λ sen. sen.word; quoted = λ b. b }

abbrev refused : GoError
refused = external (text "dial tcp: connect: Connection refused")

refused_test :
    is_code code_connection_refused
      (map_ssh_error plain_formats refused (text "r1") 22 (text "dial"))
    ≡ true
unfolding is_code map_ssh_error as_ros goros.Common.text_eq goros.Ssh.Errors.classify_message
    goros.Ssh.Errors.contains_any goros.Ssh.Errors.contains_fold goros.Roserr.Render.error_text
    goros.Gate.Classify.strip_fold
refused_test = refl

map_ssh_error_lem_example :
    ((info : Info) × (as_ros refused ≡ some info)
      × (map_ssh_error plain_formats refused (text "r1") 22 (text "dial") ≡ refused))
    ⊎ ((as_ros refused ≡ none)
        × Mapped plain_formats refused
            (text "r1")
            22
            (text "dial")
            (map_ssh_error plain_formats refused (text "r1") 22 (text "dial")))
map_ssh_error_lem_example = map_ssh_error_lem plain_formats refused (text "r1") 22 (text "dial")

-- Every call succeeds; a connection is the address dialed.
abbrev willing : Platform Text Text
willing = record {
  formats = plain_formats;
  split_host_port = λ addr. ok (text "r1", text "22");
  atoi = λ s. 22;
  parse_private_key = λ pem. ok pem;
  read_file = λ path. ok path;
  known_hosts_new = λ path. err eof;
  dial_tcp = λ addr config. ok addr;
}

abbrev options : List (DialOption Text)
options = with_password (text "pw") ∷ with_private_key (text "pem") ∷ []

dial-Ends_example :
    DialEnds willing
      (text "r1:22")
      (text "admin")
      none
      (apply_dial_options options default_config)
      (dial willing none (text "r1:22") (text "admin") options)
dial-Ends_example = dial-Ends willing (text "r1:22") (text "admin") none options

-- A call whose command exits with a status and an output.
abbrev exiting : Call Text
exiting = record {
  formats = plain_formats;
  ctx = none;
  new_session = λ conn. none;
  waited = λ conn line. output console_text (some (exited eof));
}

abbrev dialed_client : SshClient Text
dialed_client = record { conn = some (text "r1:22"); host = text "r1"; port = 22 }

run_open-Ends_example :
    ((out : Text)
      → (run_open exiting dialed_client (text "/ip address print") (text "r1:22") ≡ (out, none))
        ↔ Succeeds exiting dialed_client (text "/ip address print") (text "r1:22") out)
    × (((out : Text) × (run_open exiting dialed_client (text "/ip address print") (text "r1:22")
            ≡ (out, none))
          × Succeeds exiting dialed_client (text "/ip address print") (text "r1:22") out)
        ⊎ Failure
            (FromContext exiting dialed_client (text "/ip address print") (text "r1:22"))
            (run_open exiting dialed_client (text "/ip address print") (text "r1:22")))
run_open-Ends_example =
    run_open-Ends exiting dialed_client (text "/ip address print") (text "r1:22")

validate_line_accepts_iff_example :
    ((validate_line
        (λ before. exiting)
        dialed_client
        (text "r1:22")
        (text "/ip address print")
        []).1
      ≡ none)
    ↔ Parsed (λ before. exiting) dialed_client (text "r1:22") (text "/ip address print") []
validate_line_accepts_iff_example =
    validate_line_accepts_iff (λ before. exiting) dialed_client (text "r1:22")
      (text "/ip address print") [] refl
