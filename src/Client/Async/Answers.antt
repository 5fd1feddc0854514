-- ===== src/Client/Async/Answers.antt =====
-- What a call of `RunArgsContext` in asynchronous mode returns, by the sentence that ends its reply and
-- by whether its context was done first.
use goros.Common.{
  Text, text_eq, text_eq_refl, Bool, true, false, List, ◌∷◌, Option, none, some, ◌≡◌, refl, ◌∙◌,
  ◌⊎◌, inl, inr, arith,
}
use goros.Common.Assoc.{Assoc, erase, lookup-erase}
use goros.Roserr.{GoError, device}
use goros.Proto.Sentence.{Sentence}
use goros.Client.Reply.{process_sentence, done_sentence, trap_sentence, fatal_sentence}
use goros.Client.Sync.{Outcome}
use goros.Client.Processor.{
  normal, ◌>>=◌, run, Processor, new_processor, process, dispatch, process_run, close, run_returns,
}
use goros.Client.Async.{Client, settle, is_over, deliver}
use goros.Client.Async.Calls.{pending}
use goros.Client.Async.Ended.{deliver_taken}
use goros.Client.Async.Closing.{Among, pending-lookup}
use goros.Client.Async.Rows.{collected}

-- How the last sentence of a call leaves the field `Done` of its reply and its error. In asynchronous
-- mode a `!trap` is the last sentence too.
abbrev pub Concludes : Sentence → Option Sentence → Option GoError → Type 0
Concludes sen d e =
    ((sen.word ≡ done_sentence) × (d ≡ some sen) × (e ≡ none))
    ⊎ ((sen.word ≡ trap_sentence) × (d ≡ none) × (e ≡ some (device sen)))
    ⊎ ((sen.word ≡ fatal_sentence) × (d ≡ none) × (e ≡ some (device sen)))

abbrev pub concluded : List Sentence → Option Sentence → Option GoError → Processor
concluded rs d e = record (new_processor run none) {
  err = e;
  closed = true;
  reply = record { re = rs; done = d };
}

abbrev pub collecting : List Sentence → Processor
collecting rs = collected (new_processor run none) rs

abbrev open_with : List Sentence → Option Sentence → Processor
open_with rs d = record (new_processor run none) { reply = record { re = rs; done = d } }

-- What the caller gets: with its context in time, the reply and the error; otherwise no reply, and the
-- error of the reply before the context's own.
abbrev pub handed : Option GoError → List Sentence → Option Sentence → Option GoError → Outcome
handed none rs d e = (some (record { re = rs; done = d }), e)
handed (some ctx) rs d none = (none, some ctx)
handed (some ctx) rs d (some e) = (none, some e)

handed-run_returns :
    (ctx : Option GoError) (rs : List Sentence) (d : Option Sentence) (e : Option GoError)
    → run_returns ctx (concluded rs d e) ≡ handed ctx rs d e
handed-run_returns none rs d e = refl
handed-run_returns (some ctx) rs d none = refl
handed-run_returns (some ctx) rs d (some e) = refl

settle-concluded :
    (c : Client) (tags : Assoc Processor) (tag : Text) (rs : List Sentence) (d : Option Sentence)
    (done : Bool) (e : Option GoError)
    → is_over done e ≡ true
    → settle c tags tag (open_with rs d) done e
      ≡ normal (record c {
        tags = some (erase tag tags);
        finished = (tag, concluded rs d e) ∷ c.finished;
      })
unfolding settle close
settle-concluded c tags tag rs d true none h = refl
settle-concluded c tags tag rs d false none h = absurd (cc)
settle-concluded c tags tag rs d done (some e) h = refl

-- The round of the last sentence.
last_taken :
    (c : Client) (tags : Assoc Processor) (sen : Sentence) (rs : List Sentence)
    (d : Option Sentence) (e : Option GoError)
    → Concludes sen d e
    → (process (collecting rs) sen >>= λ (p, done, x). settle c tags sen.tag p done x)
      ≡ normal (record c {
        tags = some (erase sen.tag tags);
        finished = (sen.tag, concluded rs d e) ∷ c.finished;
      })
unfolding process dispatch process_run process_sentence text_eq
last_taken c tags sen rs d e (inl (w, same, err)) =
    ground (arith, settle-concluded c tags sen.tag rs (some sen) true none refl)
last_taken c tags sen rs d e (inr (inl (w, same, err))) =
    ground (arith, settle-concluded c tags sen.tag rs none false (some (device sen)) refl)
last_taken c tags sen rs d e (inr (inr (w, same, err))) =
    ground (arith, settle-concluded c tags sen.tag rs none true (some (device sen)) refl)

-- The last sentence takes the call from the tags, and leaves it what it returns.
pub last_concluded :
    (c : Client) (final : Sentence) (rs : List Sentence) (d : Option Sentence)
    (e ctx : Option GoError)
    → pending c final.tag ≡ some (collecting rs)
    → Concludes final d e
    → (c' : Client) × (p : Processor) × (deliver c final ≡ normal c')
      × (pending c' final.tag ≡ none)
      × Among (final.tag, p) c'.finished
      × (p.closed ≡ true)
      × (run_returns ctx p ≡ handed ctx rs d e)
last_concluded c final rs d e ctx h v =
    let (tags, held, f) = pending-lookup c final.tag (collecting rs) c.tags refl h in
    (
      record c {
        tags = some (erase final.tag tags);
        finished = (final.tag, concluded rs d e) ∷ c.finished;
      },
      concluded rs d e,
      deliver_taken c final tags (collecting rs) held f ∙ last_taken c tags final rs d e v,
      rw (lookup-erase final.tag final.tag tags, text_eq_refl final.tag) refl,
      inl refl,
      refl,
      handed-run_returns ctx rs d e,
    )
