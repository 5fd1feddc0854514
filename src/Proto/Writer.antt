-- ===== src/Proto/Writer.antt =====
-- proto/writer.go: words and sentences on their way to the device. `sent` is what `bufio.Writer`
-- has taken, and `locked` is the mutex that `BeginSentence` holds until `EndSentence`.
pub mod Laws
use goros.Common.{ℕ, Text, List, [], ◌∷◌, ◌++◌, Bool, true, false, Option, none, some, length}
use goros.Common.{if◌then◌else◌}
use goros.Roserr.{GoError}
use goros.Proto.Length.{encode_length}

pub record Writer : Type 0 where
  pub sent : Text
  pub err : Option GoError
  pub locked : Bool

abbrev pub new_writer : Writer
new_writer = record { sent = []; err = none; locked = false }

-- What the connection does is the environment's choice: `on_write sent b` is the error with which it
-- meets the write of `b` after `sent`, if any, and `on_flush sent` the error of a flush.
pub record Link : Type 0 where
  pub on_write : Text → Text → Option GoError
  pub on_flush : Text → Option GoError

module _ (k : Link) where
  unfoldable pub write : Text → Writer → Writer
  write b w = elim w.err [
    | some e ↦ w
    | none ↦ elim (k.on_write w.sent b) [
      | some e ↦ record w { err = some e }
      | none ↦ record w { sent = w.sent ++ b }
    ]
  ]

  unfoldable pub flush : Writer → Writer
  flush w = elim w.err [
    | some e ↦ w
    | none ↦ elim (k.on_flush w.sent) [ some e ↦ record w { err = some e } | none ↦ w ]
  ]

  unfoldable pub write_word : Text → Writer → Writer
  write_word word w = write word (write (encode_length (length word)) w)

  -- A loop of `WriteWord`.
  unfoldable pub write_words : List Text → Writer → Writer
  write_words [] w = w
  write_words (word ∷ words) w = write_words words (write_word word w)

  unfoldable pub end_sentence : Writer → Writer × Option GoError
  end_sentence w =
      let flushed = flush (write_word [] w) in (record flushed { locked = false }, flushed.err)

-- `Lock` on a held mutex does not return: `none`.
unfoldable pub begin_sentence : Writer → Option Writer
begin_sentence w = if w.locked then none else some (record w { locked = true })
