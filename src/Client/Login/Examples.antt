-- ===== src/Client/Login/Examples.antt =====
-- A login in one stage.
use goros.Common.{Text, text, text_eq, [], ◌∷◌, ◌++◌, none, some, ◌≡◌, ◌≢◌, ◌↔◌, refl, inl, inr}
use goros.Common.Assoc.{insert}
use goros.Roserr.{ok}
use goros.Roserr.Render.{Formats}
use goros.Proto.Sentence.{Sentence}
use goros.Proto.Reader.{read_sentence, read_loop, read_word, add_word}
use goros.Client.Reply.{Reply}
use goros.Client.Sync.Laws.{run_sync_lem}
use goros.Client.Login.{Wire, Digest, panicked, finished, cleartext_login, login}
use goros.Common.{All}
use goros.Proto.Writer.{Link}
use goros.Client.Conversation.Refinement.{Said}
use goros.Client.Conversation.OnWire.{Answers, OnWire}
use goros.Client.Login.Laws.{Takes, login_succeeds_iff}
use goros.Client.Login.Returns.{Syncs, login-ne-panicked}

abbrev formats : Formats
formats = record { sentence = λ sen. sen.word; quoted = λ b. b }

abbrev digest : Digest
digest = record { sum = λ b. b; rune = λ c. c ∷ [] }

abbrev done_sentence : Sentence
done_sentence = record { word = text "!done"; tag = []; list = []; attributes = [] }

abbrev done_reply : Reply
done_reply = record { re = []; done = some done_sentence }

-- The device takes every command.
abbrev agreeing : Wire
agreeing sent words = ok done_reply

agreeing-Syncs : Syncs agreeing
unfolding read_sentence read_loop read_word goros.Proto.Length.read_length
    goros.Proto.Length.read_number goros.Proto.Length.read_full goros.Proto.Length.join_bytes
    add_word goros.Proto.Reader.split_pair insert goros.Common.split_at_byte text_eq
agreeing-Syncs sent words =
    let stream : Text = (5 ∷ text "!done") ++ (0 ∷ []) in
    inr (
      stream,
      done_reply,
      some [],
      run_sync_lem stream stream [] [] done_sentence (some done_reply, none) refl tt refl
          (inl (refl, refl)),
      refl,
    )

login_succeeds_iff_example :
    ((login formats digest agreeing (text "admin") (text "pw") []).1 ≡ finished none)
    ↔ Takes formats digest agreeing
        (text "admin")
        (text "pw")
        (cleartext_login (text "admin") (text "pw") ∷ [])
        (ok done_reply)
login_succeeds_iff_example =
    login_succeeds_iff formats digest agreeing (text "admin") (text "pw") []

login-ne-panicked_example :
    (login formats digest agreeing (text "admin") (text "pw") []).1 ≢ panicked
login-ne-panicked_example =
    login-ne-panicked formats digest agreeing (text "admin") (text "pw") [] agreeing-Syncs

-- A device that answers every sentence with `!done`, over a connection that takes everything.
abbrev done_said : Said
done_said = record { words = text "!done" ∷ []; sentence = done_sentence }

abbrev agreeable : Answers
agreeable sent ws = ([], done_said)

abbrev open_link : Link
open_link = record { on_write = λ sent b. none; on_flush = λ sent. none }
