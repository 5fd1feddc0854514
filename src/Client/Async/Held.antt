-- ===== src/Client/Async/Held.antt =====
-- What becomes of a receiver: it stays registered until it is closed.
use goros.Common.{
  Text, text_eq, text_eq_iff, text_eq_refl, Bool, true, ◌∷◌, Option, none, some, ◌≡◌, ◌≢◌, refl,
  sym, subst, ◌∙◌, ◌⊎◌, inl, inr, arith, Bool-cases, Option-cases,
}
use goros.Common.Assoc.{Assoc, lookup, insert, erase, lookup-insert}
use goros.Roserr.{GoError}
use goros.Proto.Sentence.{Sentence}
use goros.Client.Processor.{Attempt, normal, panic, ◌>>=◌, Processor, process, close}
use goros.Client.Async.{Client, is_over, settle, deliver, close_tags}
use goros.Client.Async.Sound.{TagsOpen, IsSound}
use goros.Client.Async.Calls.{pending}
use goros.Client.Async.Ended.{deliver_taken, deliver_others}
use goros.Client.Async.Closing.{
  Among, closed_with, close_all-ClosesAll, given, pending-lookup, closes_pending, close-closed_with,
}
use goros.Client.Async.Kept.{Keeps, IsOrderly}
use goros.Client.Async.Grows.{Grows, Grows-refl, Grows-trans, process-Grows}

-- The receiver that once was `p` was closed, and kept what it had got.
abbrev pub Finished : Text → Processor → Client → Type 0
Finished tag p c = (p' : Processor) × Among (tag, p') c.finished × (p'.closed ≡ true) × Grows p p'

-- It waits under the tag, or was closed.
abbrev pub Held : Text → Processor → Client → Type 0
Held tag p c = ((p' : Processor) × (pending c tag ≡ some p') × Grows p p') ⊎ Finished tag p c

-- Who was finished still is, with what it got.
abbrev pub Carries : Client → Client → Type 0
Carries c c' = (x : Text × Processor) → Among x c.finished → Among x c'.finished

Carries-Finished :
    (c c' : Client) (j : Text) (p : Processor) → Carries c c' → Finished j p c → Finished j p c'
Carries-Finished c c' j p kept (p', m, shut, g) = (p', kept (j, p') m, shut, g)

pub Keeps-Held :
    (c c' : Client) (tag : Text) (p : Processor) → Keeps c c' → Held tag p c → Held tag p c'
Keeps-Held c c' tag p (stay, same, o) (inl (p', h, g)) = inl (p', stay tag p' h, g)
Keeps-Held c c' tag p (stay, same, o) (inr (p', m, shut, g)) =
    inr (p', subst (Among (tag, p')) (sym same) m, shut, g)

Held-Grows : (c : Client) (tag : Text) (p q : Processor) → Grows p q → Held tag q c → Held tag p c
Held-Grows c tag p q g (inl (p', h, more)) = inl (p', h, Grows-trans p q p' g more)
Held-Grows c tag p q g (inr (p', m, shut, more)) = inr (p', m, shut, Grows-trans p q p' g more)

closed-Grows : (e : Option GoError) (p : Processor) → Grows p (closed_with e p)
closed-Grows e p = Grows-refl p

-- What a round leaves of the tag whose receiver took the sentence.
settled_Held :
    (c c' : Client) (tags : Assoc Processor) (tag : Text) (p : Processor) (done : Bool)
    (e : Option GoError)
    → settle c tags tag p done e ≡ normal c'
    → Held tag p c' × Carries c c' × (c'.async ≡ c.async)
unfolding settle close
settled_Held c c' tags tag p done e h = elim (Bool-cases (is_over done e)) [
  | inr b ↦
      let same : record c { tags = some (insert tag p tags) } ≡ c' = ground arith in
      subst (λ c'. Held tag p c' × Carries c c' × (c'.async ≡ c.async)) same
        (
          inl (p, rw (lookup-insert tag tag p tags, text_eq_refl tag) refl, Grows-refl p),
          λ x m. m,
          refl,
        )
  | inl b ↦ elim (Bool-cases p.closed) [
    | inl shut ↦ absurd (ground arith)
    | inr free ↦
        let same : record c {
          tags = some (erase tag tags);
          finished = (tag, closed_with e p) ∷ c.finished;
        }
            ≡ c' =
          ground (arith, close-closed_with e p free) in
        subst (λ c'. Held tag p c' × Carries c c' × (c'.async ≡ c.async)) same
          (inr (closed_with e p, inl refl, refl, closed-Grows e p), λ x m. inr m, refl)
  ]
]

-- A step loses no receiver, and makes the map `tags` only in asynchronous mode.
abbrev pub Advances : Client → Client → Type 0
Advances c c' =
    ((j : Text) (p : Processor) → Held j p c → Held j p c') × IsOrderly c' × Carries c c'

pub stays-Advances : (c c' : Client) → IsOrderly c → c ≡ c' → Advances c c'
stays-Advances c c' o e = subst (Advances c) e (λ j p h. h, o, λ x m. m)

pub Keeps-Advances : (c c' : Client) → Keeps c c' → Advances c c'
Keeps-Advances c c' (stay, same, o) =
    (λ j p. Keeps-Held c c' j p (stay, same, o), o, λ x. subst (Among x) (sym same))

other_Held :
    (c c' : Client) (j : Text) (p : Processor)
    → pending c' j ≡ pending c j
    → Carries c c'
    → Held j p c
    → Held j p c'
other_Held c c' j p same kept (inl (p', h, g)) = inl (p', same ∙ h, g)
other_Held c c' j p same kept (inr f) = inr (Carries-Finished c c' j p kept f)

-- The receiver that took the sentence.
own_Held :
    (c c' : Client) (tag : Text) (p q q' : Processor)
    → pending c tag ≡ some q
    → Grows q q'
    → Held tag q' c'
    → Carries c c'
    → Held tag p c
    → Held tag p c'
own_Held c c' tag p q q' w g own kept (inl (p', h, g')) =
    let same : p' ≡ q = cc (h, w) in
    Held-Grows c' tag p q' (Grows-trans p q q' (subst (Grows p) same g') g) own
own_Held c c' tag p q q' w g own kept (inr f) = inr (Carries-Finished c c' tag p kept f)

same_mode-IsOrderly :
    (c c' : Client) (tags : Assoc Processor)
    → IsOrderly c
    → c.tags ≡ some tags
    → c'.async ≡ c.async
    → IsOrderly c'
same_mode-IsOrderly c c' tags o t same off = absurd (let e = o (sym same ∙ off) in cc)

taken_Advances :
    (c c' : Client) (tags : Assoc Processor) (tag : Text) (q : Processor)
    (r : Attempt (Processor × Bool × Option GoError))
    → IsOrderly c
    → c.tags ≡ some tags
    → pending c tag ≡ some q
    → ((q' : Processor) (done : Bool) (e : Option GoError) → r ≡ normal (q', done, e) → Grows q q')
    → ((j : Text) → j ≢ tag → pending c' j ≡ pending c j)
    → (r >>= λ (p', done, e). settle c tags tag p' done e) ≡ normal c'
    → Advances c c'
taken_Advances c c' tags tag q panic o t w g others h = absurd (cc)
taken_Advances c c' tags tag q (normal (q', done, e)) o t w g others h =
    let (own, kept, same) = settled_Held c c' tags tag q' done e h in
    (
      λ j p held. elim (Bool-cases (text_eq tag j)) [
        | inl f ↦
            let here = (text_eq_iff tag j).0 f in
            subst (λ i. Held i p c') here
              (own_Held c c' tag p q q' w (g q' done e refl) own kept
                (subst (λ i. Held i p c) (sym here) held))
        | inr f ↦
            other_Held c c' j p (others j (λ g. absurd (ground (arith, text_eq_iff tag j)))) kept
              held
      ],
      same_mode-IsOrderly c c' tags o t same,
      kept,
    )

pub deliver-Advances :
    (c c' : Client) (sen : Sentence) → IsOrderly c → deliver c sen ≡ normal c' → Advances c c'
unfolding deliver
deliver-Advances c c' sen o h = elim (Option-cases c.tags) [
  | inl t ↦ stays-Advances c c' o (ground arith)
  | inr (tags, t) ↦ elim (Option-cases (lookup sen.tag tags)) [
    | inl f ↦ stays-Advances c c' o (ground arith)
    | inr (p, f) ↦
        taken_Advances c c' tags sen.tag p (process p sen) o t (rw t f)
          (λ q' done e r. process-Grows p q' sen done e r) (λ j ne. deliver_others c c' sen j h ne)
          (sym (deliver_taken c sen tags p t f) ∙ h)
  ]
]

pub same_client : (c c' : Client) → ◌≡◌ {A = Attempt Client} (normal c) (normal c') → c ≡ c'
same_client c c' e = cc

not_waiting : (c : Client) (j : Text) (p : Processor) → c.tags ≡ none → Held j p c → Finished j p c
not_waiting c j p t (inl (p', h, g)) = absurd (ground arith)
not_waiting c j p t (inr f) = f

close_tags-Finished :
    (c c' : Client) (e : GoError) (j : Text) (p : Processor) (tags : Assoc Processor)
    → IsSound c
    → c.tags ≡ some tags
    → close_tags e c ≡ normal c'
    → Carries c c'
    → Held j p c
    → Finished j p c'
close_tags-Finished c c' e j p tags s t closed kept (inr f) = Carries-Finished c c' j p kept f
close_tags-Finished c c' e j p tags s t closed kept (inl (p', h, more)) =
    let g = given c e in
    let (tags', t', f) = pending-lookup c j p' c.tags refl h in
    let (c2, closed', gone, m) = closes_pending c e j p' tags' s t' f in
    (
      closed_with g p',
      subst (λ c. Among (j, closed_with g p') c.finished) (same_client c2 c' (sym closed' ∙ closed))
          m,
      refl,
      Grows-trans p p' (closed_with g p') more (closed-Grows g p'),
    )

-- The end of the loop closes whoever waits, and nobody is left in the tags.
pub close_tags-Ends :
    (c : Client) (e : GoError)
    → IsSound c
    → (c' : Client) × (close_tags e c ≡ normal c')
      × (c'.tags ≡ none)
      × ((j : Text) (p : Processor) → Held j p c → Finished j p c')
      × Carries c c'
unfolding close_tags
close_tags-Ends c e s = elim (Option-cases c.tags) [
  | inl t ↦ (c, ground arith, t, λ j p h. not_waiting c j p t h, λ x m. m)
  | inr (tags, t) ↦
      let (all, same, kept) =
        close_all-ClosesAll (given c e) tags c.finished (subst TagsOpen t s.open_receivers) in
      let c' = record c { tags = none; finished = all } in
      let closed : close_tags e c ≡ normal c' = rw (t, close_tags) (rw same refl) in
      (c', closed, refl, λ j p h. close_tags-Finished c c' e j p tags s t closed kept h, kept)
]
