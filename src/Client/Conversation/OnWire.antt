-- ===== src/Client/Conversation/OnWire.antt =====
-- What `RunArgsContext` in synchronous mode returns to a caller that sends one sentence after another,
-- to a device that answers each with sentences, and the bytes of all of them.
use goros.Common.{
  Text, text_eq, Bool, true, false, List, [], ◌∷◌, ◌++◌, map, Option, none, some, All, ◌≡◌, refl,
  subst, ap,
}
use goros.Roserr.{GoError, Result, ok, err, device}
use goros.Proto.Writer.{Link, new_writer}
use goros.Proto.Writer.Laws.{Accepts}
use goros.Client.Reply.{Reply, done_sentence}
use goros.Client.Sync.{Outcome}
use goros.Client.Sync.Laws.{rows, last_trap}
use goros.Client.Conversation.{converse}
use goros.Client.Conversation.Refinement.{
  Said, Exchange, Fits, sentences, outcome, settled_as, requests_bytes, answers_bytes, after_bytes,
  converse-outcome,
}

-- A device: the sentences of its answer to a sentence, after the sentences that it has got before.
abbrev pub Answers : Type 0
Answers = List (List Text) → List Text → List Said × Said

abbrev pub exchange : Answers → List (List Text) → List Text → Exchange
exchange a sent ws = record { request = ws; body = (a sent ws).0; final = (a sent ws).1 }

-- The exchanges over a list of sentences.
abbrev pub history : Answers → List (List Text) → List (List Text) → List Exchange
history a sent [] = []
history a sent (ws ∷ more) = exchange a sent ws ∷ history a (sent ++ (ws ∷ [])) more

abbrev pub returned : Reply → Option GoError → Result Reply
returned r none = ok r
returned r (some e) = err e

-- The result of `RunArgsContext` on an exchange: the reply where there is no error.
abbrev pub answer_of : Bool → Exchange → Result Reply
answer_of true x =
    returned (record { re = rows (sentences x.body); done = some x.final.sentence })
      (last_trap none (sentences x.body))
answer_of false x = err (device x.final.sentence)

abbrev pub wire_of : Answers → List (List Text) → List Text → Result Reply
wire_of a sent ws =
    let x = exchange a sent ws in answer_of (text_eq x.final.sentence.word done_sentence) x

-- The error where there is one, and the reply where there is none.
abbrev pub Agrees : Outcome → Result Reply → Type 0
Agrees o (ok r) = o ≡ (some r, none)
Agrees o (err e) = o.1 ≡ some e

returned-Agrees : (r : Reply) (last : Option GoError) → Agrees (some r, last) (returned r last)
returned-Agrees r none = refl
returned-Agrees r (some e) = refl

answer_of-Agrees : (b : Bool) (x : Exchange) → Agrees (settled_as b x) (answer_of b x)
answer_of-Agrees true x = returned-Agrees _ (last_trap none (sentences x.body))
answer_of-Agrees false x = refl

module _ (a : Answers) where
  -- What the client returns for each sentence is what the caller was answered.
  abbrev pub AllAgree : List (List Text) → List (List Text) → Type 0
  AllAgree sent [] = Unit
  AllAgree sent (ws ∷ more) =
      Agrees (outcome (exchange a sent ws)) (wire_of a sent ws) × AllAgree (sent ++ (ws ∷ [])) more

  history-AllAgree : (sent reqs : List (List Text)) → AllAgree sent reqs
  history-AllAgree sent [] = tt
  history-AllAgree sent (ws ∷ more) =
      let x = exchange a sent ws in
      (
        answer_of-Agrees (text_eq x.final.sentence.word done_sentence) x,
        history-AllAgree (sent ++ (ws ∷ [])) more,
      )

  history-requests :
      (sent reqs : List (List Text)) → map (λ x. x.request) (history a sent reqs) ≡ reqs
  history-requests sent [] = refl
  history-requests sent (ws ∷ more) = ap (λ l. ws ∷ l) (history-requests (sent ++ (ws ∷ [])) more)

  history-Fits :
      ((sent : List (List Text)) (ws : List Text) → Fits (exchange a sent ws))
      → (sent reqs : List (List Text)) → All Fits (history a sent reqs)
  history-Fits h sent [] = tt
  history-Fits h sent (ws ∷ more) = (h sent ws, history-Fits h (sent ++ (ws ∷ [])) more)

  -- The bytes of the sentences.
  abbrev pub bytes_of : List (List Text) → Text
  bytes_of reqs = requests_bytes (history a [] reqs)

  -- Over the bytes of the device's answers, the client in synchronous mode returns for each sentence
  -- what the caller was answered, and the device gets the bytes of these sentences.
  abbrev pub OnWire : Link → List (List Text) → Text → Type 0
  OnWire k reqs rest =
      (converse k new_writer (answers_bytes (history a [] reqs) ++ rest) reqs
        ≡ some (map outcome (history a [] reqs), after_bytes new_writer (bytes_of reqs), some rest))
      × AllAgree [] reqs

  pub sent-OnWire :
      (k : Link) (reqs : List (List Text)) (rest : Text)
      → Accepts k
      → ((sent : List (List Text)) (ws : List Text) → Fits (exchange a sent ws))
      → OnWire k reqs rest
  sent-OnWire k reqs rest good h =
      let xs = history a [] reqs in
      (
        subst
            (λ l.
              converse k new_writer (answers_bytes xs ++ rest) l
              ≡ some (map outcome xs, after_bytes new_writer (requests_bytes xs), some rest))
            (history-requests [] reqs)
            (converse-outcome k good xs new_writer rest (history-Fits h [] reqs) refl refl),
        history-AllAgree [] reqs,
      )
