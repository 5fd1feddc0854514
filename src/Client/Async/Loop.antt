-- ===== src/Client/Async/Loop.antt =====
-- `asyncLoop` and `asyncLoopChan` of async.go over the bytes of the connection, while other goroutines
-- take their steps between its rounds.
use goros.Common.{
  ℕ, zero, suc, ◌<◌, Text, Option, none, some, ◌≡◌, refl, ◌∙◌, inl, inr, arith, length,
}
use goros.Roserr.{ok, err, GoError}
use goros.Proto.Sentence.{Sentence}
use goros.Proto.Writer.{Link}
use goros.Proto.Reader.{read_sentence}
use goros.Proto.Reader.Laws.{read_sentence-shortens}
use goros.Client.Sync.Laws.{read_cases}
use goros.Client.Processor.{Attempt, normal, panic, ◌>>=◌, Processor}
use goros.Client.Async.{Client, deliver, close_tags, loop_error}
use goros.Client.Async.Sound.{IsSound, deliver-IsSound}
use goros.Client.Async.Steps.{Reach, Reach-IsSound}
use goros.Client.Async.Rounds.{round-StaysSound}
use goros.Client.Async.Kept.{IsOrderly}
use goros.Client.Async.Held.{Held, Finished, Carries, deliver-Advances, close_tags-Ends}
use goros.Client.Async.Progress.{Reach-Advances}

-- The loop takes a round for each sentence. Before the round with `n` more to come at most, other
-- goroutines take the client from `c` to `others n c`. The result is the error that ends the loop.
unfoldable pub async_loop :
    ℕ → (ℕ → Client → Client) → Client → Text → Option (Attempt (Client × GoError))
async_loop zero others c s = none
async_loop (suc fuel) others c s = elim (read_sentence s) [
  | none ↦ none
  | some (err e) ↦ some (close_tags e (others fuel c) >>= λ c'. normal (c', e))
  | some (ok (sen, rest)) ↦ elim (deliver (others fuel c) sen) [
    | panic ↦ some panic
    | normal c' ↦ async_loop fuel others c' rest
  ]
]

-- `asyncLoopChan`: the client and what goes to the channel that `Async` returned. Each sentence takes a
-- byte at least, so a round for each byte and one more are enough.
unfoldable pub async_loop_chan :
    (ℕ → Client → Client) → Client → Text → Option (Attempt (Client × Option GoError))
unfolding async_loop
async_loop_chan others c s = elim (async_loop (suc (length s)) others c s) [
  | none ↦ none
  | some r ↦ some (r >>= λ (c', e). normal (c', loop_error c' e))
]

-- The sentences of the stream can be read one after another, up to a read that fails with the error.
pub data LastRead : Text → GoError → Type 0 where
  fails : (s : Text) (e : GoError) → read_sentence s ≡ some (err e) → LastRead s e
  reads :
      (s rest : Text) (sen : Sentence) (e : GoError)
      → read_sentence s ≡ some (ok (sen, rest))
      → LastRead rest e
      → LastRead s e

-- The loop's end: the error is the last read's, nobody is left in the tags, and whoever was there at the start was closed.
abbrev pub LoopEnds : Client → Text → Option (Attempt (Client × GoError)) → Type 0
LoopEnds c s r =
    (c' : Client) × (e : GoError) × (r ≡ some (normal (c', e)))
    × LastRead s e
    × (c'.tags ≡ none)
    × ((tag : Text) (p : Processor) → Held tag p c → Finished tag p c')
    × Carries c c'

last_read :
    (fuel : ℕ) (others : ℕ → Client → Client) (c : Client) (s : Text) (e : GoError)
    → IsSound (others fuel c)
    → read_sentence s ≡ some (err e)
    → LoopEnds (others fuel c) s (async_loop (suc fuel) others c s)
unfolding async_loop
last_read fuel others c s e sound p =
    let (c', closed, gone, kept, carried) = close_tags-Ends (others fuel c) e sound in
    (c', e, rw (p, async_loop) (rw closed refl), fails s e p, gone, kept, carried)

pub next_round :
    (fuel : ℕ) (others : ℕ → Client → Client) (c c' : Client) (s rest : Text) (sen : Sentence)
    → read_sentence s ≡ some (ok (sen, rest))
    → deliver (others fuel c) sen ≡ normal c'
    → async_loop (suc fuel) others c s ≡ async_loop fuel others c' rest
unfolding async_loop
next_round fuel others c c' s rest sen p d = rw (p, async_loop) (rw (d, async_loop) refl)

pub async_loop-LoopEnds :
    (k : Link) (fuel : ℕ) (others : ℕ → Client → Client) (c : Client) (s : Text)
    → IsSound c
    → IsOrderly c
    → ((n : ℕ) (d : Client) → Reach k d (others n d))
    → length s < fuel
    → LoopEnds c s (async_loop fuel others c s)
async_loop-LoopEnds k zero others c s sound o h f = absurd (omega arith)
async_loop-LoopEnds k (suc fuel) others c s sound o h f =
    let c0 = others fuel c in
    let sound0 = Reach-IsSound k c c0 sound (h fuel c) in
    let (kept, o0, carried) = Reach-Advances k c c0 sound o (h fuel c) in
    elim (read_cases s) [
      | inl (e, p) ↦
          let (c', x, r, f, gone, all, last) = last_read fuel others c s e sound0 p in
          (
            c',
            x,
            r,
            f,
            gone,
            λ tag p held. all tag p (kept tag p held),
            λ y m. last y (carried y m),
          )
      | inr (sen, rest, p) ↦
          let (c1, d, sound1) = round-StaysSound (deliver c0 sen) (deliver-IsSound c0 sen sound0) in
          let (kept', o1, carried') = deliver-Advances c0 c1 sen o0 d in
          let (c', x, r, f, gone, all, last) =
            async_loop-LoopEnds k fuel others c1 rest sound1 o1 h
              (omega (arith, read_sentence-shortens s sen rest p)) in
          (
            c',
            x,
            next_round fuel others c c1 s rest sen p d ∙ r,
            reads s rest sen x p f,
            gone,
            λ tag p held. all tag p (kept' tag p (kept tag p held)),
            λ y m. last y (carried' y (carried y m)),
          )
    ]

pub chan_gets :
    (others : ℕ → Client → Client) (c c' : Client) (s : Text) (e : GoError)
    → async_loop (suc (length s)) others c s ≡ some (normal (c', e))
    → async_loop_chan others c s ≡ some (normal (c', loop_error c' e))
unfolding async_loop_chan
chan_gets others c c' s e h = rw (h, async_loop_chan) refl
