-- ===== src/Client/Async/Calls/Tags.antt =====
-- The next tag is new, and a receiver added under it, or erased, keeps the invariant.
use goros.Common.{
  ℕ, ◌+◌, Text, List, [], ◌∷◌, Option, none, some, ◌≡◌, ◌≢◌, sym, subst, ◌∙◌, inl, inr, arith, All,
}
use goros.Common.Assoc.{
  Assoc, insert, erase, keys, Values-insert, Values-erase, keys-insert, keys-erase,
}
use goros.Common.Decimal.{decimal, decimal_injective}
use goros.Proto.Writer.{Writer}
use goros.Client.Processor.{Processor}
use goros.Client.Async.{Client}
use goros.Client.Async.Sound.{IsOpen, IsIssued, TagsOpen, TagsIssued, IsSound}

tail_eq : (x y : ℕ) (a b : Text) → ◌≡◌ {A = Text} (x ∷ a) (y ∷ b) → a ≡ b
tail_eq x y a b e = cc

-- No tag given out so far is the next one of any kind.
next_is_new : (n : ℕ) (p : ℕ) (tag : Text) → IsIssued n tag → tag ≢ p ∷ decimal (n + 1)
next_is_new n p tag (m, le, inl e) same =
    let d =
      decimal_injective m (n + 1) (tail_eq b'r' p (decimal m) (decimal (n + 1)) (sym e ∙ same)) in
    absurd (omega arith)
next_is_new n p tag (m, le, inr (inl e)) same =
    let d =
      decimal_injective m (n + 1) (tail_eq b'l' p (decimal m) (decimal (n + 1)) (sym e ∙ same)) in
    absurd (omega arith)
next_is_new n p tag (m, le, inr (inr e)) same =
    let d =
      decimal_injective m (n + 1) (tail_eq b'c' p (decimal m) (decimal (n + 1)) (sym e ∙ same)) in
    absurd (omega arith)

pub All-new :
    (n p : ℕ) (tags : List Text) → All (IsIssued n) tags → All (λ j. j ≢ p ∷ decimal (n + 1)) tags
All-new n p [] h = tt
All-new n p (tag ∷ tags) h = (next_is_new n p tag h.0, All-new n p tags h.1)

later-IsIssued : (n : ℕ) (tags : List Text) → All (IsIssued n) tags → All (IsIssued (n + 1)) tags
later-IsIssued n [] h = tt
later-IsIssued n (tag ∷ tags) ((m, le, e), h) = ((m, omega arith, e), later-IsIssued n tags h)

-- The same client but for the writer and a number of tags given out.
abbrev pub more_tags : Client → Writer → Client
more_tags c w = record c { writer = w; next_tag = c.next_tag + 1 }

TagsIssued-later :
    (n : ℕ) (tags : Option (Assoc Processor)) → TagsIssued n tags → TagsIssued (n + 1) tags
TagsIssued-later n none h = tt
TagsIssued-later n (some tags) h = later-IsIssued n (keys tags) h

pub more_tags-IsSound : (c : Client) (w : Writer) → IsSound c → IsSound (more_tags c w)
more_tags-IsSound c w s = record {
  open_receivers = s.open_receivers;
  issued_tags = TagsIssued-later c.next_tag c.tags s.issued_tags;
}

pub added-IsSound :
    (c : Client) (w : Writer) (tag : Text) (p : Processor) (tags : Assoc Processor)
    → IsSound c
    → c.tags ≡ some tags
    → IsOpen p
    → IsIssued c.next_tag tag
    → IsSound (record c { writer = w; tags = some (insert tag p tags) })
added-IsSound c w tag p tags s t fits issued = record {
  open_receivers = Values-insert IsOpen tag p tags fits (subst TagsOpen t s.open_receivers);
  issued_tags =
      keys-insert (IsIssued c.next_tag) tag p tags issued
        (subst (TagsIssued c.next_tag) t s.issued_tags);
}

pub erased-IsSound :
    (c : Client) (w : Writer) (tag : Text) (tags : Assoc Processor)
    → IsSound c
    → c.tags ≡ some tags
    → IsSound (record c { writer = w; tags = some (erase tag tags) })
erased-IsSound c w tag tags s t = record {
  open_receivers = Values-erase IsOpen tag tags (subst TagsOpen t s.open_receivers);
  issued_tags =
      keys-erase (IsIssued c.next_tag) tag tags (subst (TagsIssued c.next_tag) t s.issued_tags);
}

pub other_writer-IsSound : (c : Client) (w : Writer) → IsSound c → IsSound (record c { writer = w })
other_writer-IsSound c w s = record {
  open_receivers = s.open_receivers;
  issued_tags = s.issued_tags;
}
