-- ===== src/Proto/Writer/Laws.antt =====
-- What a sentence puts on the wire, and what an error leaves behind.
use goros.Common.{Text, List, [], ◌∷◌, ◌++◌, none, some, length, false, append_assoc, append-nil}
use goros.Common.{◌≡◌, refl, arith, ◌∙◌}
use goros.Roserr.{GoError}
use goros.Proto.Length.{encode_length}
use goros.Proto.Writer.{Writer, Link, write, flush, write_word, write_words, end_sentence}

-- A word on the wire: its length, then its bytes.
abbrev pub word_bytes : Text → Text
word_bytes word = encode_length (length word) ++ word

abbrev pub words_bytes : List Text → Text
words_bytes [] = []
words_bytes (word ∷ words) = word_bytes word ++ words_bytes words

-- A sentence on the wire: its words and the empty word.
abbrev pub sentence_bytes : List Text → Text
sentence_bytes words = words_bytes words ++ word_bytes []

-- The connection takes all it is given.
pub record Accepts (k : Link) : Type 0 where
  pub writes : (sent b : Text) → k.on_write sent b ≡ none
  pub flushes : (sent : Text) → k.on_flush sent ≡ none

module _ (k : Link) (good : Accepts k) where
  write-sent :
      (b : Text) (w : Writer) → w.err ≡ none → write k b w ≡ record w { sent = w.sent ++ b }
  unfolding write
  write-sent b w e = ground (arith, good.writes w.sent b)

  flush-sent : (w : Writer) → w.err ≡ none → flush k w ≡ w
  unfolding flush
  flush-sent w e = ground (arith, good.flushes w.sent)

  write_word-sent :
      (word : Text) (w : Writer)
      → w.err ≡ none
      → write_word k word w ≡ record w { sent = w.sent ++ word_bytes word }
  unfolding write_word
  write_word-sent word w e = rw (write-sent (encode_length (length word)) w e) (
      rw (write-sent word (record w { sent = w.sent ++ encode_length (length word) }) e)
        (rw append_assoc refl))

  write_words-sent :
      (words : List Text) (w : Writer)
      → w.err ≡ none
      → write_words k words w ≡ record w { sent = w.sent ++ words_bytes words }
  unfolding write_words
  write_words-sent [] w e = rw append-nil refl
  write_words-sent (word ∷ words) w e = rw (write_word-sent word w e) (
      write_words-sent words (record w { sent = w.sent ++ word_bytes word }) e
      ∙ rw append_assoc refl)

  -- On a connection that takes all it is given, a writer without an error sends exactly the
  -- sentence: each word behind its length, then the empty word. It returns no error and frees the lock.
  pub end_sentence-sent :
      (words : List Text) (w : Writer)
      → w.err ≡ none
      → end_sentence k (write_words k words w)
        ≡ (record w { sent = w.sent ++ sentence_bytes words; locked = false }, none)
  unfolding end_sentence
  end_sentence-sent words w e =
      let whole = record w { sent = w.sent ++ words_bytes words } in
      let done = record whole { sent = whole.sent ++ word_bytes [] } in
      rw (write_words-sent words w e, write_word-sent [] whole e, flush-sent done e)
        (cc (append_assoc w.sent (words_bytes words) (word_bytes []), e))

module _ (k : Link) (e : GoError) where
  write-sticky : (b : Text) (w : Writer) → w.err ≡ some e → write k b w ≡ w
  unfolding write
  write-sticky b w h = ground arith

  flush-sticky : (w : Writer) → w.err ≡ some e → flush k w ≡ w
  unfolding flush
  flush-sticky w h = ground arith

  write_word-sticky : (word : Text) (w : Writer) → w.err ≡ some e → write_word k word w ≡ w
  unfolding write_word
  write_word-sticky word w h =
      rw (write-sticky (encode_length (length word)) w h) (write-sticky word w h)

  write_words-sticky : (words : List Text) (w : Writer) → w.err ≡ some e → write_words k words w ≡ w
  unfolding write_words
  write_words-sticky [] w h = refl
  write_words-sticky (word ∷ words) w h =
      rw (write_word-sticky word w h) (write_words-sticky words w h)

  -- After an error nothing more is sent, whatever the connection would take: every later sentence
  -- ends with that error, and the lock is free again.
  pub end_sentence-sticky :
      (words : List Text) (w : Writer)
      → w.err ≡ some e
      → end_sentence k (write_words k words w) ≡ (record w { locked = false }, some e)
  unfolding end_sentence
  end_sentence-sticky words w h =
      rw (write_words-sticky words w h, write_word-sticky [] w h, flush-sticky w h) (cc)
