-- ===== src/Client/Login.antt =====
-- `LoginContext`, `challengeResponse`, `newClientAndLogin` and the dialing functions of client.go, over
-- what `RunArgsContext` returns for a command after those sent before.
pub mod Hex
pub mod Laws
pub mod Returns
pub mod OnWire
mod Examples
use goros.Common.{Text, text, ℕ, List, [], ◌∷◌, ◌++◌, Option, none, some}
use goros.Common.Assoc.{lookup}
use goros.Roserr.{GoError, Result, ok, err, no_challenge, invalid_challenge, wrapped, nil, cons}
use goros.Roserr.Render.{Formats, error_text}
use goros.Proto.Sentence.{Sentence}
use goros.Client.Reply.{Reply}
use goros.Client.Login.Hex.{hex_encode, hex_decode}

-- The reply of a command is read where there is no error.
abbrev pub Wire : Type 0
Wire = List (List Text) → List Text → Result Reply

-- `md5.Sum`, and `%#U` of `fmt`, by which `hex.InvalidByteError` shows a byte.
pub record Digest : Type 0 where
  pub sum : Text → Text
  pub rune : ℕ → Text

-- What `LoginContext` comes to; reading `Map` of a nil sentence is a panic.
pub data LoginResult : Type 0 where
  panicked : LoginResult
  finished : Option GoError → LoginResult

abbrev pub challenge_response : Digest → Text → Text → Text
challenge_response d cha password = text "00" ++ hex_encode (d.sum (0 ∷ (password ++ cha)))

abbrev pub cleartext_login : Text → Text → List Text
cleartext_login username password =
    text "/login" ∷ (text "=name=" ++ username) ∷ (text "=password=" ++ password) ∷ []

abbrev pub response_login : Digest → Text → Text → Text → List Text
response_login d username password cha =
    text "/login"
    ∷ (text "=name=" ++ username)
    ∷ (text "=response=" ++ challenge_response d cha password)
    ∷ []

-- `fmt.Errorf("RouterOS: /login: %w: %w", ErrInvalidChallengeReceived, err)`
abbrev pub bad_challenge : Formats → GoError → GoError
bad_challenge f e =
    wrapped
      (text "RouterOS: /login: " ++ error_text f invalid_challenge ++ text ": " ++ error_text f e)
      (cons invalid_challenge (cons e nil))

-- The error alone of a command's results.
abbrev pub error_of : Result Reply → Option GoError
error_of (ok r) = none
error_of (err e) = some e

module _ (f : Formats) (d : Digest) (wire : Wire) (username password : Text) where
  abbrev pub second_stage : List (List Text) → Result Text → List (List Text) × LoginResult
  second_stage sent (err e) = (sent, finished (some (bad_challenge f e)))
  second_stage sent (ok cha) =
      let words = response_login d username password cha in
      (sent ++ (words ∷ []), finished (error_of (wire sent words)))

  abbrev pub on_ret : List (List Text) → Option Text → List (List Text) × LoginResult
  on_ret sent none = (sent, finished none)
  on_ret sent (some ret) = second_stage sent (hex_decode d.rune ret)

  abbrev pub on_done : List (List Text) → Option Sentence → List (List Text) × LoginResult
  on_done sent none = (sent, panicked)
  on_done sent (some done) = on_ret sent (lookup (text "ret") done.attributes)

  abbrev pub on_reply : List (List Text) → Result Reply → List (List Text) × LoginResult
  on_reply sent (err e) = (sent, finished (some e))
  on_reply sent (ok r) = on_done sent r.done

  -- `LoginContext`: the commands sent then, and the result. Behind the read of `ret`, `Done` is not
  -- nil, so that `ErrNoChallengeReceived` is never returned.
  unfoldable pub login : List (List Text) → List (List Text) × LoginResult
  login sent =
      let words = cleartext_login username password in
      on_reply (sent ++ (words ∷ [])) (wire sent words)

-- `fmt.Errorf("could not login: %w; close %w", err, c.Close())`: `%w` of a nil error is text.
abbrev pub not_logged_in : Formats → GoError → Option GoError → GoError
not_logged_in f e none =
    wrapped (text "could not login: " ++ error_text f e ++ text "; close %!w(<nil>)") (cons e nil)
not_logged_in f e (some close_error) =
    wrapped
      (text "could not login: " ++ error_text f e ++ text "; close " ++ error_text f close_error)
      (cons e (cons close_error nil))

-- What the dialing functions come to: a panic, an error, or a client over the connection.
pub data Dialed (Conn : Type 0) : Type 0 where
  dial_panicked : Dialed Conn
  dial_failed : GoError → Dialed Conn
  logged_in : Conn → Dialed Conn

module _ {Conn : Type 0} (f : Formats) (d : Digest) (wire : Conn → Wire)
    (close_conn : Conn → Option GoError) where
  abbrev pub after_login : Conn → LoginResult → Dialed Conn
  after_login conn panicked = dial_panicked
  after_login conn (finished none) = logged_in conn
  after_login conn (finished (some e)) = dial_failed (not_logged_in f e (close_conn conn))

  -- `newClientAndLogin`; `NewClient` returns no error.
  abbrev pub new_client_and_login : Conn → Text → Text → Dialed Conn
  new_client_and_login conn username password =
      after_login conn (login f d (wire conn) username password []).1

  -- `DialContext` and `DialTLSContext`, over what their dialers return.
  unfoldable pub dial_context : Result Conn → Text → Text → Dialed Conn
  dial_context (err e) username password =
      dial_failed (wrapped (text "could not connect to router os: " ++ error_text f e) (cons e nil))
  dial_context (ok conn) username password = new_client_and_login conn username password
