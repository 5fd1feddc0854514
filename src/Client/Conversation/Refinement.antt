-- ===== src/Client/Conversation/Refinement.antt =====
-- A synchronous client and the bytes of the wire, against a device that answers sentences.
use goros.Common.{
  Text, List, [], ◌∷◌, ◌++◌, map, Bool, true, false, none, some, All, ◌≡◌, refl, ◌⊎◌, inl, inr, ap,
  ◌∙◌, append_assoc, append-nil, text_eq, text_eq_refl,
}
use goros.Roserr.{ok, device}
use goros.Proto.Sentence.{Sentence, new_sentence}
use goros.Proto.Writer.{Writer, Link, begin_sentence}
use goros.Proto.Writer.Laws.{Accepts, sentence_bytes, end_sentence-sent}
use goros.Proto.Reader.{read_sentence}
use goros.Proto.Reader.RoundTrip.{IsWord, add_words, read_sentence-sentence_bytes}
use goros.Client.Reply.{done_sentence, fatal_sentence}
use goros.Client.Sync.{Outcome, run_sync}
use goros.Client.Sync.Laws.{Streams, IsBody, rows, last_trap, Settles, run_sync_lem}
use goros.Client.Conversation.{run_args_sync, run_args, put_first, converse}

-- A sentence that the device says, with the words that it sends for it.
pub record Said : Type 0 where
  pub words : List Text
  pub sentence : Sentence

-- The words can be sent, and spell the sentence.
abbrev pub Spells : Said → Type 0
Spells s = All IsWord s.words × (add_words new_sentence s.words ≡ ok s.sentence)

-- One command and the device's answer to it.
pub record Exchange : Type 0 where
  pub request : List Text
  pub body : List Said
  pub final : Said

abbrev pub sentences : List Said → List Sentence
sentences [] = []
sentences (s ∷ said) = s.sentence ∷ sentences said

abbrev pub said_bytes : List Said → Text
said_bytes [] = []
said_bytes (s ∷ said) = sentence_bytes s.words ++ said_bytes said

abbrev pub Fits : Exchange → Type 0
Fits x =
    All Spells x.body
    × Spells x.final
    × All IsBody (sentences x.body)
    × ((x.final.sentence.word ≡ done_sentence) ⊎ (x.final.sentence.word ≡ fatal_sentence))

-- The specification: what a command comes to, from the sentences of its answer alone.
abbrev pub settled_as : Bool → Exchange → Outcome
settled_as true x = (
  some (record { re = rows (sentences x.body); done = some x.final.sentence }),
  last_trap none (sentences x.body),
)
settled_as false x = (none, some (device x.final.sentence))

abbrev pub outcome : Exchange → Outcome
outcome x = settled_as (text_eq x.final.sentence.word done_sentence) x

-- The bytes of all the requests, and of all the answers.
abbrev pub requests_bytes : List Exchange → Text
requests_bytes [] = []
requests_bytes (x ∷ xs) = sentence_bytes x.request ++ requests_bytes xs

abbrev pub answers_bytes : List Exchange → Text
answers_bytes [] = []
answers_bytes (x ∷ xs) = said_bytes x.body ++ (sentence_bytes x.final.words ++ answers_bytes xs)

pub read_said :
    (s : Said) (rest : Text)
    → Spells s
    → read_sentence (sentence_bytes s.words ++ rest) ≡ some (ok (s.sentence, rest))
read_said s rest h = rw (read_sentence-sentence_bytes s.words rest h.0) (rw h.1 refl)

pub body-Streams :
    (said : List Said) (u : Text)
    → All Spells said
    → Streams (said_bytes said ++ u) (sentences said) u
body-Streams [] u h = refl
body-Streams (s ∷ said) u h = (
  said_bytes said ++ u,
  rw (append_assoc (sentence_bytes s.words) (said_bytes said) u)
      (read_said s (said_bytes said ++ u) h.0),
  body-Streams said u h.1,
)

settled :
    (x : Exchange)
    → (x.final.sentence.word ≡ done_sentence) ⊎ (x.final.sentence.word ≡ fatal_sentence)
    → Settles x.final.sentence
        (record { re = rows (sentences x.body); done = none })
        (last_trap none (sentences x.body))
        (outcome x)
unfolding text_eq
settled x (inl e) = inl (
  e,
  ap (λ b. settled_as b x) (ap (λ word. text_eq word done_sentence) e ∙ text_eq_refl done_sentence),
)
settled x (inr e) = inr (e, ap (λ b. settled_as b x) (ap (λ word. text_eq word done_sentence) e))

-- The answer to a command is read as the specification says, and the bytes behind it are left.
run_sync-outcome :
    (x : Exchange) (rest : Text)
    → Fits x
    → run_sync (said_bytes x.body ++ (sentence_bytes x.final.words ++ rest))
      ≡ some (outcome x, some rest)
run_sync-outcome x rest (body, final, bodies, ends) =
    run_sync_lem _ (sentence_bytes x.final.words ++ rest) rest (sentences x.body) x.final.sentence
      (outcome x) (body-Streams x.body (sentence_bytes x.final.words ++ rest) body) bodies
      (read_said x.final rest final) (settled x ends)

-- The writer after the bytes, free for the next sentence.
abbrev pub after_bytes : Writer → Text → Writer
after_bytes w b = record w { sent = w.sent ++ b; locked = false }

module _ (k : Link) (good : Accepts k) where
  begin_free :
      (w : Writer) → w.locked ≡ false → begin_sentence w ≡ some (record w { locked = true })
  unfolding begin_sentence
  begin_free w f = rw f refl

  run_args-outcome :
      (x : Exchange) (w : Writer) (rest : Text)
      → Fits x
      → w.err ≡ none
      → w.locked ≡ false
      → run_args k w x.request (said_bytes x.body ++ (sentence_bytes x.final.words ++ rest))
        ≡ some (outcome x, after_bytes w (sentence_bytes x.request), some rest)
  unfolding run_args run_args_sync
  run_args-outcome x w rest fits e f = rw (begin_free w f) (
      rw (end_sentence-sent k good x.request (record w { locked = true }) e)
        (rw (run_sync-outcome x rest fits) refl))

  converse-step :
      (w w' : Writer) (s rest : Text) (words : List Text) (commands : List (List Text))
      (o : Outcome)
      → run_args k w words s ≡ some (o, w', some rest)
      → converse k w s (words ∷ commands) ≡ put_first o (converse k w' rest commands)
  unfolding converse
  converse-step w w' s rest words commands o h = rw (h, converse) refl

  -- Over a connection that takes all it is given, any number of commands in synchronous mode, one
  -- after another, come to what the specification says of the sentences that the device answers: each
  -- command gets its own answer and no other's, the device gets the bytes of exactly the requests, in
  -- order, what follows the last answer is left unread, and the writer is free again.
  pub converse-outcome :
      (xs : List Exchange) (w : Writer) (rest : Text)
      → All Fits xs
      → w.err ≡ none
      → w.locked ≡ false
      → converse k w (answers_bytes xs ++ rest) (map (λ x. x.request) xs)
        ≡ some (map outcome xs, after_bytes w (requests_bytes xs), some rest)
  unfolding converse
  converse-outcome [] w rest fits e f = cc (append-nil w.sent, f)
  converse-outcome (x ∷ xs) w rest fits e f =
      let request = sentence_bytes x.request in
      rw
        (
          append_assoc (said_bytes x.body) (sentence_bytes x.final.words ++ answers_bytes xs) rest,
          append_assoc (sentence_bytes x.final.words) (answers_bytes xs) rest,
          converse-step w (after_bytes w request) _ (answers_bytes xs ++ rest) x.request
              (map (λ y. y.request) xs) (outcome x)
              (run_args-outcome x w (answers_bytes xs ++ rest) fits.0 e f),
          converse-outcome xs (after_bytes w request) rest fits.1 e refl,
        )
        (cc (append_assoc w.sent request (requests_bytes xs)))
