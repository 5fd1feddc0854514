-- ===== src/Client/Sync/Laws.antt =====
-- What the synchronous mode returns: the rows and the last trap of a reply, or the error that ends it.
use goros.Common.{
  ℕ, zero, suc, ◌<◌, Text, text_eq, Bool, true, false, Option, none, some, length, List, [], ◌∷◌,
  ◌++◌, if◌then◌else◌, ◌≡◌, refl, ◌⊎◌, inl, inr, arith, All, append_assoc, append-nil, ap, ◌∙◌,
  Bool-cases,
}
use goros.Roserr.{Result, ok, err, GoError, device}
use goros.Proto.Sentence.{Sentence}
use goros.Proto.Reader.{read_sentence}
use goros.Proto.Reader.Laws.{read_sentence-shortens, read_sentence-total}
use goros.Client.Reply.{
  Reply, new_reply, process_sentence, re_sentence, done_sentence, trap_sentence, fatal_sentence,
  empty_sentence,
}
use goros.Client.Sync.{Outcome, run_loop, run_sync}

-- The stream holds the sentences, one behind the other, and then `u`.
abbrev pub Streams : Text → List Sentence → Text → Type 0
Streams s [] u = s ≡ u
Streams s (sen ∷ sens) u = (t : Text) × (read_sentence s ≡ some (ok (sen, t))) × Streams t sens u

-- A sentence after which the loop reads on.
abbrev pub IsBody : Sentence → Type 0
IsBody sen =
    (sen.word ≡ re_sentence)
    ⊎ (sen.word ≡ trap_sentence)
    ⊎ (sen.word ≡ [])
    ⊎ (sen.word ≡ empty_sentence)

-- The `!re` sentences, in order.
abbrev pub rows : List Sentence → List Sentence
rows [] = []
rows (sen ∷ sens) = if text_eq sen.word re_sentence then sen ∷ rows sens else rows sens

-- The error of the last `!trap`.
abbrev pub last_trap : Option GoError → List Sentence → Option GoError
last_trap last [] = last
last_trap last (sen ∷ sens) =
    last_trap (if text_eq sen.word trap_sentence then some (device sen) else last) sens

body_step :
    (fuel : ℕ) (out : Reply) (last : Option GoError) (s t : Text) (sen : Sentence)
    → IsBody sen
    → read_sentence s ≡ some (ok (sen, t))
    → run_loop (suc fuel) out last s
      ≡ run_loop fuel (record out { re = out.re ++ rows (sen ∷ []) }) (last_trap last (sen ∷ [])) t
unfolding run_loop process_sentence text_eq
body_step fuel out last s t sen (inl e) p = ground (arith, append-nil out.re)
body_step fuel out last s t sen (inr (inl e)) p = ground (arith, append-nil out.re)
body_step fuel out last s t sen (inr (inr (inl e))) p = ground (arith, append-nil out.re)
body_step fuel out last s t sen (inr (inr (inr e))) p = ground (arith, append-nil out.re)

rows_split :
    (r : List Sentence) (sen : Sentence) (sens : List Sentence)
    → (r ++ rows (sen ∷ [])) ++ rows sens ≡ r ++ rows (sen ∷ sens)
rows_split r sen sens = elim (Bool-cases (text_eq sen.word re_sentence)) [
  | inl e ↦ rw e (append_assoc r (sen ∷ []) (rows sens))
  | inr e ↦ rw e (rw append-nil refl)
]

body_loop :
    (sens : List Sentence) (fuel : ℕ) (out : Reply) (last : Option GoError) (s u : Text)
    → Streams s sens u
    → All IsBody sens
    → length s < fuel
    → (k : ℕ) × (length u < k)
      × (run_loop fuel out last s
          ≡ run_loop k (record out { re = out.re ++ rows sens }) (last_trap last sens) u)
body_loop [] fuel out last s u e h f = (fuel, rw (← e) f, rw append-nil (rw e refl))
body_loop (sen ∷ sens) zero out last s u (t, p, q) h f = absurd (omega arith)
body_loop (sen ∷ sens) (suc fuel) out last s u (t, p, q) h f =
    let out' = record out { re = out.re ++ rows (sen ∷ []) } in
    let (k, room, same) =
      body_loop sens fuel out' (last_trap last (sen ∷ [])) t u q h.1
        (omega (arith, read_sentence-shortens s sen t p)) in
    (
      k,
      room,
      body_step fuel out last s t sen h.0 p
          ∙ same
          ∙ ap
              (λ (r : List Sentence).
                run_loop k (record out { re = r }) (last_trap last (sen ∷ sens)) u)
              (rows_split out.re sen sens),
    )

-- How the sentence that ends a reply settles it.
abbrev pub Settles : Sentence → Reply → Option GoError → Outcome → Type 0
Settles sen out last o =
    ((sen.word ≡ done_sentence) × (o ≡ (some (record out { done = some sen }), last)))
    ⊎ ((sen.word ≡ fatal_sentence) × (o ≡ (none, some (device sen))))

end_step :
    (k : ℕ) (out : Reply) (last : Option GoError) (u rest : Text) (sen : Sentence) (o : Outcome)
    → length u < k
    → read_sentence u ≡ some (ok (sen, rest))
    → Settles sen out last o
    → run_loop k out last u ≡ some (o, some rest)
unfolding run_loop process_sentence text_eq
end_step zero out last u rest sen o h p v = absurd (omega arith)
end_step (suc k) out last u rest sen o h p (inl v) = ground arith
end_step (suc k) out last u rest sen o h p (inr v) = ground arith

-- On a stream of data rows, traps and empty sentences that ends in `!done` or `!fatal`, a command
-- in synchronous mode returns: at `!done` the rows in order, the `!done` sentence and the error of the
-- last trap, if there was one; at `!fatal` no reply and the device error. The stream is left behind
-- the last sentence.
pub run_sync_lem :
    (s u rest : Text) (sens : List Sentence) (sen : Sentence) (o : Outcome)
    → Streams s sens u
    → All IsBody sens
    → read_sentence u ≡ some (ok (sen, rest))
    → Settles sen (record { re = rows sens; done = none }) (last_trap none sens) o
    → run_sync s ≡ some (o, some rest)
unfolding run_sync
run_sync_lem s u rest sens sen o st body p v =
    let (k, room, same) =
      body_loop sens (suc (length s)) new_reply none s u st body (omega arith) in
    same
    ∙ end_step k (record { re = rows sens; done = none }) (last_trap none sens) u rest sen o room p
        v

pub read_cases :
    (s : Text)
    → ((e : GoError) × (read_sentence s ≡ some (err e)))
      ⊎ ((sen : Sentence) × (t : Text) × (read_sentence s ≡ some (ok (sen, t))))
read_cases s = let (r, p) = read_sentence-total s in split r p
  where
    split :
        (r : Result (Sentence × Text))
        → read_sentence s ≡ some r
        → ((e : GoError) × (read_sentence s ≡ some (err e)))
          ⊎ ((sen : Sentence) × (t : Text) × (read_sentence s ≡ some (ok (sen, t))))
    split (err e) p = inl (e, p)
    split (ok (sen, t)) p = inr (sen, t, p)

run_loop_failed :
    (fuel : ℕ) (out : Reply) (last : Option GoError) (s : Text) (e : GoError)
    → read_sentence s ≡ some (err e)
    → run_loop (suc fuel) out last s ≡ some ((none, some e), none)
unfolding run_loop
run_loop_failed fuel out last s e p = rw (p, run_loop)

-- A round that reads a sentence ends the loop, or goes on from the stream behind the sentence.
run_loop_cases :
    (fuel : ℕ) (out : Reply) (last : Option GoError) (s t : Text) (sen : Sentence)
    → read_sentence s ≡ some (ok (sen, t))
    → ((r : Outcome × Option Text) × (run_loop (suc fuel) out last s ≡ some r))
      ⊎ ((out' : Reply) × (last' : Option GoError) × (run_loop (suc fuel) out last s
            ≡ run_loop fuel out' last' t))
unfolding run_loop
run_loop_cases fuel out last s t sen p =
    let (out', done, failure) = process_sentence out sen in split failure done refl refl
  where
    split :
        (failure : Option GoError) (done : Bool)
        → (process_sentence out sen).2 ≡ failure
        → (process_sentence out sen).1 ≡ done
        → ((r : Outcome × Option Text) × (run_loop (suc fuel) out last s ≡ some r))
          ⊎ ((out' : Reply) × (last' : Option GoError) × (run_loop (suc fuel) out last s
                ≡ run_loop fuel out' last' t))
    split (some e) true q d = inl (((none, some e), some t), ground arith)
    split (some e) false q d = inr ((process_sentence out sen).0, some e, ground arith)
    split none true q d = inl (((some (process_sentence out sen).0, last), some t), ground arith)
    split none false q d = inr ((process_sentence out sen).0, last, ground arith)

run_loop-total :
    (fuel : ℕ) (out : Reply) (last : Option GoError) (s : Text)
    → length s < fuel
    → (r : Outcome × Option Text) × (run_loop fuel out last s ≡ some r)
run_loop-total zero out last s h = absurd (omega arith)
run_loop-total (suc fuel) out last s h = elim (read_cases s) [
  | inl (e, p) ↦ (((none, some e), none), run_loop_failed fuel out last s e p)
  | inr (sen, t, p) ↦ elim (run_loop_cases fuel out last s t sen p) [
    | inl found ↦ found
    | inr (out', last', same) ↦
        rw same (run_loop-total fuel out' last' t (omega (arith, read_sentence-shortens s sen t p)))
  ]
]

-- A call in synchronous mode returns on every input.
pub run_sync-total : (s : Text) → (r : Outcome × Option Text) × (run_sync s ≡ some r)
unfolding run_sync
run_sync-total s = run_loop-total (suc (length s)) new_reply none s (omega arith)
