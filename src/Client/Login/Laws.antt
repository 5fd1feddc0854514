-- ===== src/Client/Login/Laws.antt =====
-- When a login succeeds.
use goros.Common.{
  Text, text, List, [], ◌∷◌, ◌++◌, Option, none, some, ◌≡◌, ◌↔◌, ◌⊎◌, refl, inl, inr, ◌∙◌, ap,
}
use goros.Common.Assoc.{lookup}
use goros.Roserr.{Result, ok, err, Result-cases}
use goros.Roserr.Render.{Formats}
use goros.Proto.Sentence.{Sentence}
use goros.Client.Reply.{Reply}
use goros.Client.Login.Hex.{hex_decode}
use goros.Client.Login.{
  Wire, Digest, finished, cleartext_login, response_login, error_of, second_stage, on_ret, on_done,
  on_reply, login,
}

module _ (f : Formats) (d : Digest) (wire : Wire) (username password : Text) where
  -- The device takes the password, or sends a challenge that decodes, and takes the response to it.
  abbrev pub Answers : List (List Text) → Sentence → Type 0
  Answers sent done =
      (lookup (text "ret") done.attributes ≡ none)
      ⊎ ((ret : Text) × (cha : Text) × (r : Reply) × (lookup (text "ret") done.attributes
            ≡ some ret)
          × (hex_decode d.rune ret ≡ ok cha)
          × (wire sent (response_login d username password cha) ≡ ok r))

  abbrev pub Takes : List (List Text) → Result Reply → Type 0
  Takes sent first =
      (r : Reply) × (done : Sentence) × (first ≡ ok r) × (r.done ≡ some done) × Answers sent done

  second_ok :
      (sent : List (List Text)) (ret : Text) (dec : Result Text)
      → hex_decode d.rune ret ≡ dec
      → (second_stage f d wire username password sent dec).1 ≡ finished none
      → (cha : Text) × (r : Reply) × (hex_decode d.rune ret ≡ ok cha)
        × (wire sent (response_login d username password cha) ≡ ok r)
  second_ok sent ret (err e) p h = absurd (cc)
  second_ok sent ret (ok cha) p h =
      elim (Result-cases (wire sent (response_login d username password cha))) [
        | inl (e, q) ↦ absurd (cc (rw q at h))
        | inr (r, q) ↦ (cha, r, p, q)
      ]

  ret_ok :
      (sent : List (List Text)) (done : Sentence) (ret : Option Text)
      → lookup (text "ret") done.attributes ≡ ret
      → (on_ret f d wire username password sent ret).1 ≡ finished none
      → Answers sent done
  ret_ok sent done none p h = inl p
  ret_ok sent done (some ret) p h =
      let (cha, r, q, w) = second_ok sent ret (hex_decode d.rune ret) refl h in
      inr (ret, cha, r, p, q, w)

  done_ok :
      (sent : List (List Text)) (r : Reply) (done : Option Sentence)
      → r.done ≡ done
      → (on_done f d wire username password sent done).1 ≡ finished none
      → Takes sent (ok r)
  done_ok sent r none p h = absurd (cc)
  done_ok sent r (some done) p h =
      (r, done, refl, p, ret_ok sent done (lookup (text "ret") done.attributes) refl h)

  reply_ok :
      (sent : List (List Text)) (first : Result Reply)
      → (on_reply f d wire username password sent first).1 ≡ finished none
      → Takes sent first
  reply_ok sent (err e) h = absurd (cc)
  reply_ok sent (ok r) h = done_ok sent r r.done refl h

  Answers-ok :
      (sent : List (List Text)) (done : Sentence)
      → Answers sent done
      → (on_done f d wire username password sent (some done)).1 ≡ finished none
  Answers-ok sent done (inl p) = ap (λ o. (on_ret f d wire username password sent o).1) p
  Answers-ok sent done (inr (ret, cha, r, p, q, w)) =
      ap (λ o. (on_ret f d wire username password sent o).1) p
      ∙ ap (λ o. (second_stage f d wire username password sent o).1) q
      ∙ ap (λ o. finished (error_of o)) w

  Takes-ok :
      (sent : List (List Text)) (first : Result Reply)
      → Takes sent first
      → (on_reply f d wire username password sent first).1 ≡ finished none
  Takes-ok sent first (r, done, p, q, a) =
      ap (λ o. (on_reply f d wire username password sent o).1) p
      ∙ ap (λ o. (on_done f d wire username password sent o).1) q
      ∙ Answers-ok sent done a

  -- A login succeeds exactly when the device ends the reply to the user's name and password with a
  -- sentence without `ret`, or with one whose `ret` decodes to a challenge, and then takes the name
  -- with the response to that challenge.
  pub login_succeeds_iff :
      (sent : List (List Text))
      → ((login f d wire username password sent).1 ≡ finished none)
        ↔ Takes
            (sent ++ (cleartext_login username password ∷ []))
            (wire sent (cleartext_login username password))
  unfolding login
  login_succeeds_iff sent =
      let sent' = sent ++ (cleartext_login username password ∷ []) in
      let first = wire sent (cleartext_login username password) in
      (reply_ok sent' first, Takes-ok sent' first)
