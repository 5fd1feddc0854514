-- ===== src/Client/Login/Returns.antt =====
-- That a login does not panic over a synchronous client.
use goros.Common.{
  ℕ, zero, suc, Text, text, List, [], ◌∷◌, ◌++◌, Bool, true, false, Option, none, some, length, ◌≡◌,
  ◌≢◌, ◌⊎◌, refl, inl, inr, sym, arith,
}
use goros.Common.Assoc.{lookup}
use goros.Roserr.{GoError, Result, ok, err}
use goros.Roserr.Render.{Formats}
use goros.Proto.Sentence.{Sentence}
use goros.Proto.Reader.{read_sentence}
use goros.Client.Reply.{Reply, new_reply, process_sentence}
use goros.Client.Sync.{Outcome, run_loop, run_sync}
use goros.Client.Login.Hex.{hex_decode}
use goros.Client.Login.{
  Wire, Digest, panicked, finished, cleartext_login, second_stage, on_ret, on_done, on_reply, login,
}

-- A command fails, or its reply is one that the synchronous mode reads from some stream.
abbrev pub Synced : Result Reply → Type 0
Synced result =
    ((e : GoError) × (result ≡ err e))
    ⊎ ((s : Text) × (r : Reply) × (rest : Option Text) × (run_sync s ≡ some ((some r, none), rest))
        × (result ≡ ok r))

abbrev pub Syncs : Wire → Type 0
Syncs wire = (sent : List (List Text)) (words : List Text) → Synced (wire sent words)

-- Where the loop gives a reply, the reply has its last sentence.
abbrev HasDone : Option (Outcome × Option Text) → Type 0
HasDone (some ((some r, e), rest)) = (done : Sentence) × (r.done ≡ some done)
HasDone _ = Unit

along : (x y : Option (Outcome × Option Text)) → x ≡ y → HasDone y → HasDone x
along x y e h = rw e h

process-done :
    (r : Reply) (sen : Sentence)
    → (process_sentence r sen).2 ≡ none
    → (process_sentence r sen).1 ≡ true
    → (process_sentence r sen).0.done ≡ some sen
unfolding process_sentence
process-done r sen e d = ground arith

module _ (fuel : ℕ) (out : Reply) (last : Option GoError) (s : Text) where
  round-HasDone :
      (rest : Text) (sen : Sentence) (failure : Option GoError) (done : Bool)
      → ((out' : Reply) (last' : Option GoError) (t : Text) → HasDone (run_loop fuel out' last' t))
      → read_sentence s ≡ some (ok (sen, rest))
      → (process_sentence out sen).2 ≡ failure
      → (process_sentence out sen).1 ≡ done
      → HasDone (run_loop (suc fuel) out last s)
  unfolding run_loop
  round-HasDone rest sen (some e) true more p q d =
      along (run_loop (suc fuel) out last s) (some ((none, some e), some rest)) (ground arith) tt
  round-HasDone rest sen (some e) false more p q d =
      let out' = (process_sentence out sen).0 in
      along (run_loop (suc fuel) out last s) (run_loop fuel out' (some e) rest) (ground arith)
        (more out' (some e) rest)
  round-HasDone rest sen none true more p q d =
      let out' = (process_sentence out sen).0 in
      along (run_loop (suc fuel) out last s) (some ((some out', last), some rest)) (ground arith)
        (sen, process-done out sen q d)
  round-HasDone rest sen none false more p q d =
      let out' = (process_sentence out sen).0 in
      along (run_loop (suc fuel) out last s) (run_loop fuel out' last rest) (ground arith)
        (more out' last rest)

  failed-HasDone :
      (o : Option (Result (Sentence × Text)))
      → ((out' : Reply) (last' : Option GoError) (t : Text) → HasDone (run_loop fuel out' last' t))
      → read_sentence s ≡ o
      → HasDone (run_loop (suc fuel) out last s)
  unfolding run_loop
  failed-HasDone none more p =
      along (run_loop (suc fuel) out last s) none (rw (p, run_loop) refl) tt
  failed-HasDone (some (err e)) more p =
      along (run_loop (suc fuel) out last s) (some ((none, some e), none)) (rw (p, run_loop) refl)
        tt
  failed-HasDone (some (ok (sen, rest))) more p =
      round-HasDone rest sen (process_sentence out sen).2 (process_sentence out sen).1 more p refl
        refl

run_loop-HasDone :
    (fuel : ℕ) (out : Reply) (last : Option GoError) (s : Text) → HasDone (run_loop fuel out last s)
unfolding run_loop
run_loop-HasDone zero out last s = tt
run_loop-HasDone (suc fuel) out last s =
    failed-HasDone fuel out last s (read_sentence s) (run_loop-HasDone fuel) refl

-- A reply of the synchronous mode has its last sentence.
pub run_sync-done :
    (s : Text) (r : Reply) (e : Option GoError) (rest : Option Text)
    → run_sync s ≡ some ((some r, e), rest)
    → (done : Sentence) × (r.done ≡ some done)
unfolding run_sync
run_sync-done s r e rest h =
    along (some ((some r, e), rest)) (run_loop (suc (length s)) new_reply none s) (sym h)
      (run_loop-HasDone (suc (length s)) new_reply none s)

finished-ne-panicked : (e : Option GoError) → finished e ≢ panicked
finished-ne-panicked e h = cc

module _ (f : Formats) (d : Digest) (wire : Wire) (username password : Text) where
  second_returns :
      (sent : List (List Text)) (dec : Result Text)
      → (second_stage f d wire username password sent dec).1 ≢ panicked
  second_returns sent (err e) = finished-ne-panicked _
  second_returns sent (ok cha) = finished-ne-panicked _

  ret_returns :
      (sent : List (List Text)) (ret : Option Text)
      → (on_ret f d wire username password sent ret).1 ≢ panicked
  ret_returns sent none = finished-ne-panicked _
  ret_returns sent (some ret) = second_returns sent (hex_decode d.rune ret)

  done_returns :
      (sent : List (List Text)) (o : Option Sentence) (done : Sentence)
      → o ≡ some done
      → (on_done f d wire username password sent o).1 ≢ panicked
  done_returns sent o done p = rw p (ret_returns sent (lookup (text "ret") done.attributes))

  reply_returns :
      (sent : List (List Text)) (first : Result Reply)
      → Synced first
      → (on_reply f d wire username password sent first).1 ≢ panicked
  reply_returns sent first (inl (e, p)) = rw p (finished-ne-panicked (some e))
  reply_returns sent first (inr (s, r, rest, run, p)) =
      let (done, q) = run_sync-done s r none rest run in rw p (done_returns sent r.done done q)

  -- Over a client in synchronous mode a login does not panic, whatever the device sends.
  pub login-ne-panicked :
      (sent : List (List Text)) → Syncs wire → (login f d wire username password sent).1 ≢ panicked
  unfolding login
  login-ne-panicked sent syncs =
      reply_returns (sent ++ (cleartext_login username password ∷ []))
        (wire sent (cleartext_login username password))
        (syncs sent (cleartext_login username password))
