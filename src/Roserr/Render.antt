-- ===== src/Roserr/Render.antt =====
-- The `Error` methods: of roserr/roserr.go, of error.go, and of the error values of the other packages.
use goros.Common.{Text, text, ℕ, [], ◌++◌, if◌then◌else◌, is_empty, ◌==◌}
use goros.Common.Decimal.{decimal}
use goros.Proto.Sentence.{Sentence}
use goros.Client.Reply.{device_error_text}
use goros.Roserr.{
  Info, GoError, ros, device, unknown_reply, already_async, async_loop_ended, no_challenge,
  invalid_challenge, eof, unexpected_eof, canceled, deadline_exceeded, invalid_word, external,
  wrapped,
}

-- `Sentence.String`, and `%#q` of `fmt` for the bytes of a word.
pub record Formats : Type 0 where
  pub sentence : Sentence → Text
  pub quoted : Text → Text

-- ` [name=value]` where the value is not empty.
abbrev bracket : Text → Text → Text → Text
bracket name value tail =
    if is_empty value then [] else text " [" ++ name ++ text "=" ++ value ++ tail ++ text "]"

abbrev port_text : ℕ → Text
port_text port = if port == 0 then [] else text ":" ++ decimal port

-- `Error.Error`
unfoldable pub render : Info → Text
render i =
    i.code
    ++ text ": "
    ++ i.summary
    ++ bracket (text "via") i.context.via []
    ++ bracket (text "host") i.context.host (port_text i.context.port)
    ++ bracket (text "path") i.context.path []
    ++ (if is_empty i.remediation then [] else text "; remediation: " ++ i.remediation)

unfoldable pub error_text : Formats → GoError → Text
error_text f (ros info c) = render info
error_text f (device sen) = device_error_text f.sentence sen
error_text f (unknown_reply sen) = text "unknown RouterOS reply word: " ++ sen.word
error_text f already_async = text "method Async() has already been called"
error_text f async_loop_ended = text "method Async(): loop has ended - probably read error"
error_text f no_challenge = text "no ret (challenge) received"
error_text f invalid_challenge = text "invalid ret (challenge) hex string received"
error_text f eof = text "EOF"
error_text f unexpected_eof = text "unexpected EOF"
error_text f canceled = text "context canceled"
error_text f deadline_exceeded = text "context deadline exceeded"
error_text f (invalid_word b) = text "invalid RouterOS sentence word: " ++ f.quoted b
error_text f (external s) = s
error_text f (wrapped s es) = s
