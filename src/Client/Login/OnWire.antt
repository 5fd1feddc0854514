-- ===== src/Client/Login/OnWire.antt =====
-- `LoginContext` down to the bytes of the connection.
use goros.Common.{Text, List, [], ◌∷◌, Option, ◌≡◌, ◌≢◌, ◌⊎◌}
use goros.Roserr.{GoError}
use goros.Roserr.Render.{Formats}
use goros.Proto.Sentence.{Sentence}
use goros.Client.Conversation.OnWire.{OnWire}
use goros.Client.Login.{
  Wire, Digest, LoginResult, panicked, finished, cleartext_login, response_login,
}

finished-ne-panicked : (e : Option GoError) → finished e ≢ panicked
finished-ne-panicked e h = cc

module _ (f : Formats) (d : Digest) (wire : Wire) (username password : Text) where
  abbrev cleartext : List Text
  cleartext = cleartext_login username password

  -- What a login that started with nothing sent has sent, and that it has not panicked.
  abbrev pub LogsIn : List (List Text) × LoginResult → Type 0
  LogsIn (sent, r) =
      ((sent ≡ cleartext_login username password ∷ [])
        ⊎ ((cha : Text) × (sent
              ≡ cleartext_login username password ∷ response_login d username password cha ∷ [])))
      × (r ≢ panicked)
