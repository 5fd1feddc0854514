-- ===== src/Client/Async/Closing.antt =====
-- That the end of the loop reaches everyone who waits.
use goros.Common.{
  Text, text_eq, text_eq_iff, true, false, [], ◌∷◌, Option, none, some, ◌≡◌, refl, sym, subst, ap,
  ◌∙◌, ◌⊎◌, inl, inr, arith, if◌then◌else◌, Bool-cases,
}
use goros.Common.Assoc.{Assoc, lookup, Values}
use goros.Roserr.{GoError}
use goros.Proto.Writer.{Link}
use goros.Client.Processor.{normal, Processor, close}
use goros.Client.Async.{Client, new_client, close_all, close_tags}
use goros.Client.Async.Sound.{IsOpen, TagsOpen, IsSound}
use goros.Client.Async.Calls.{pending}
use goros.Client.Async.Steps.{Reach, Reach-IsSound, new_client-IsSound}

abbrev pub Among : Text × Processor → Assoc Processor → Type 0
Among x [] = ⊥
Among x (y ∷ ys) = (x ≡ y) ⊎ Among x ys

-- The receiver as `close` leaves it: an error that it had stays.
abbrev pub closed_with : Option GoError → Processor → Processor
closed_with e p = record p { err = elim p.err [ none ↦ e | some old ↦ some old ]; closed = true }

pub close-closed_with :
    (e : Option GoError) (p : Processor) → p.closed ≡ false → close e p ≡ normal (closed_with e p)
unfolding close
close-closed_with e p h = ground arith

-- All are closed, and who was finished before still is.
abbrev pub ClosesAll : Option GoError → Assoc Processor → Assoc Processor → Type 0
ClosesAll e tags finished =
    (all : Assoc Processor) × (close_all e tags finished ≡ normal all)
    × ((x : Text × Processor) → Among x finished → Among x all)

pub close_all-ClosesAll :
    (e : Option GoError) (tags finished : Assoc Processor)
    → Values IsOpen tags
    → ClosesAll e tags finished
unfolding close_all
close_all-ClosesAll e [] finished h = (finished, refl, λ x m. m)
close_all-ClosesAll e ((tag, p) ∷ tags) finished h =
    let (all, same, kept) = close_all-ClosesAll e tags ((tag, closed_with e p) ∷ finished) h.1 in
    (all, rw (close-closed_with e p h.0.0) same, λ x m. kept x (inr m))

abbrev Reaches : Option GoError → Text → Processor → Assoc Processor → Assoc Processor → Type 0
Reaches e tag p tags finished =
    (all : Assoc Processor) × (close_all e tags finished ≡ normal all)
    × Among (tag, closed_with e p) all

same_entry :
    (e : Option GoError) (tag j : Text) (p q : Processor)
    → j ≡ tag
    → q ≡ p
    → ◌≡◌ {A = Text × Processor} (tag, closed_with e p) (j, closed_with e q)
same_entry e tag j p q t f =
    ap (λ i. (i, closed_with e p)) (sym t) ∙ ap (λ r. (j, closed_with e r)) (sym f)

close_all-Reaches :
    (e : Option GoError) (tag : Text) (p : Processor) (tags finished : Assoc Processor)
    → Values IsOpen tags
    → lookup tag tags ≡ some p
    → Reaches e tag p tags finished
unfolding close_all lookup
close_all-Reaches e tag p [] finished h f = absurd (cc)
close_all-Reaches e tag p ((j, q) ∷ tags) finished h f = elim (Bool-cases (text_eq j tag)) [
  | inl t ↦
      let (all, same, kept) = close_all-ClosesAll e tags ((j, closed_with e q) ∷ finished) h.1 in
      (
        all,
        rw (close-closed_with e q h.0.0) same,
        kept (tag, closed_with e p)
            (inl (same_entry e tag j p q ((text_eq_iff j tag).0 t) (cc (rw t at f)))),
      )
  | inr t ↦
      let (all, same, found) =
        close_all-Reaches e tag p tags ((j, closed_with e q) ∷ finished) h.1 (rw t at f) in
      (all, rw (close-closed_with e q h.0.0) same, found)
]

-- The error that the end of the loop gives: none where the client has been closed.
abbrev pub given : Client → GoError → Option GoError
given c e = if c.closing then none else some e

pub closes_pending :
    (c : Client) (e : GoError) (tag : Text) (p : Processor) (tags : Assoc Processor)
    → IsSound c
    → c.tags ≡ some tags
    → lookup tag tags ≡ some p
    → (c' : Client) × (close_tags e c ≡ normal c')
      × (c'.tags ≡ none)
      × Among (tag, closed_with (given c e) p) c'.finished
unfolding close_tags
closes_pending c e tag p tags s t f =
    let (all, same, found) =
      close_all-Reaches (given c e) tag p tags c.finished (subst TagsOpen t s.open_receivers) f in
    (record c { tags = none; finished = all }, rw (t, close_tags) (rw same refl), refl, found)

pub pending-lookup :
    (c : Client) (tag : Text) (p : Processor) (o : Option (Assoc Processor))
    → c.tags ≡ o
    → pending c tag ≡ some p
    → (tags : Assoc Processor) × (c.tags ≡ some tags) × (lookup tag tags ≡ some p)
pending-lookup c tag p none t h = absurd (cc (rw t at h))
pending-lookup c tag p (some tags) t h = (tags, t, (rw t at h))

-- In every history of a client, the end of the loop closes the channel of each caller that waits for
-- a reply, and leaves no tag registered: nobody waits for good. The caller is given the error that
-- its reply had already, or else the loop's, and none where the client has been closed.
pub close_tags-Reaches :
    (k : Link) (c : Client) (e : GoError) (tag : Text) (p : Processor)
    → Reach k new_client c
    → pending c tag ≡ some p
    → (c' : Client) × (close_tags e c ≡ normal c')
      × (c'.tags ≡ none)
      × Among (tag, closed_with (given c e) p) c'.finished
close_tags-Reaches k c e tag p r h =
    let (tags, t, f) = pending-lookup c tag p c.tags refl h in
    closes_pending c e tag p tags (Reach-IsSound k new_client c new_client-IsSound r) t f
