-- ===== src/Ssh/HostKeys.antt =====
-- `hostKeyStore` of transport/ssh/ssh.go. A public key is the text that `Marshal` gives; the mutex of
-- the store makes each call of the callback atomic.
use goros.Common.{
  Text, text, text_eq, text_eq_iff, List, [], ◌∷◌, ◌++◌, Option, none, some, if◌then◌else◌, ◌≡◌,
  refl, inl, inr, Bool-cases, Option-cases, ap₂, sym, ◌∙◌, ℕ,
}
use goros.Common.Assoc.{Assoc, lookup, insert, lookup-insert}
use goros.Roserr.{
  GoError, Context, code_host_key_mismatch, with_remediation, with_context, new_error,
}

abbrev pub ssh_context : Text → ℕ → Context
ssh_context host port = record { via = text "ssh"; host = host; port = port; path = []; extra = [] }

abbrev pub mismatch : Text → GoError
mismatch hostname =
    new_error code_host_key_mismatch
      (text "host key mismatch for "
        ++ hostname
        ++ text ": the device presented a different key than previously trusted")
      (with_remediation (text "confirm the device identity before trusting the new key")
        ∷ with_context (ssh_context hostname 0)
        ∷ [])

-- What the callback of the store does with the key that a host presents.
unfoldable pub callback : Text → Text → Assoc Text → Assoc Text × Option GoError
callback hostname key keys = elim (lookup hostname keys) [
  | none ↦ (insert hostname key keys, none)
  | some existing ↦ (keys, (if text_eq existing key then none else some (mismatch hostname)))
]

-- The answers to a sequence of presented keys.
unfoldable pub callbacks : Assoc Text → List (Text × Text) → List (Option GoError)
callbacks keys [] = []
callbacks keys ((hostname, key) ∷ rest) =
    let (kept, answer) = callback hostname key keys in answer ∷ callbacks kept rest

-- The specification: the key that a host presented first, and the answers by it.
abbrev pub first_key : Text → List (Text × Text) → Option Text
first_key hostname [] = none
first_key hostname ((other, key) ∷ past) =
    if text_eq other hostname then some key else first_key hostname past

abbrev pub trust : Text → Text → Option Text → Option GoError
trust hostname key none = none
trust hostname key (some trusted) = if text_eq trusted key then none else some (mismatch hostname)

abbrev pub accept_new : List (Text × Text) → List (Text × Text) → List (Option GoError)
accept_new past [] = []
accept_new past ((hostname, key) ∷ rest) =
    trust hostname key (first_key hostname past) ∷ accept_new (past ++ ((hostname, key) ∷ [])) rest

-- The store holds for each host the key that it presented first.
abbrev pub Remembers : Assoc Text → List (Text × Text) → Type 0
Remembers keys past = (hostname : Text) → lookup hostname keys ≡ first_key hostname past

abbrev or_else : Option Text → Option Text → Option Text
or_else none b = b
or_else (some a) b = some a

first_key-append :
    (h hostname key : Text) (past : List (Text × Text))
    → first_key h (past ++ ((hostname, key) ∷ []))
      ≡ or_else (first_key h past) (if text_eq hostname h then some key else none)
first_key-append h hostname key [] = refl
first_key-append h hostname key ((other, k) ∷ past) = elim (Bool-cases (text_eq other h)) [
  | inl e ↦ rw e refl
  | inr e ↦ rw e (first_key-append h hostname key past)
]

or_else-none : (o : Option Text) → o ≡ or_else o none
or_else-none none = refl
or_else-none (some k) = refl

insert-Remembers :
    (hostname key : Text) (keys : Assoc Text) (past : List (Text × Text))
    → Remembers keys past
    → lookup hostname keys ≡ none
    → Remembers (insert hostname key keys) (past ++ ((hostname, key) ∷ []))
insert-Remembers hostname key keys past r n h = elim (Bool-cases (text_eq hostname h)) [
  | inl e ↦
      rw
        (
          lookup-insert hostname h key keys,
          first_key-append h hostname key past,
          e,
          sym (r h),
          sym ((text_eq_iff hostname h).0 e),
          n,
        )
        refl
  | inr e ↦
      rw (lookup-insert hostname h key keys, first_key-append h hostname key past, e, sym (r h))
        (or_else-none (lookup h keys))
]

same-Remembers :
    (hostname key existing : Text) (keys : Assoc Text) (past : List (Text × Text))
    → Remembers keys past
    → lookup hostname keys ≡ some existing
    → Remembers keys (past ++ ((hostname, key) ∷ []))
same-Remembers hostname key existing keys past r n h = elim (Bool-cases (text_eq hostname h)) [
  | inl e ↦
      rw (first_key-append h hostname key past, sym (r h), sym ((text_eq_iff hostname h).0 e), n)
        refl
  | inr e ↦ rw (first_key-append h hostname key past, e, sym (r h)) (or_else-none (lookup h keys))
]

callback-Remembers :
    (hostname key : Text) (keys : Assoc Text) (past : List (Text × Text))
    → Remembers keys past
    → Remembers (callback hostname key keys).0 (past ++ ((hostname, key) ∷ []))
      × ((callback hostname key keys).1 ≡ trust hostname key (first_key hostname past))
unfolding callback
callback-Remembers hostname key keys past r = elim (Option-cases (lookup hostname keys)) [
  | inl n ↦
      rw (n, callback) (insert-Remembers hostname key keys past r n, rw (sym (r hostname) ∙ n) refl)
  | inr (existing, e) ↦
      rw (e, callback)
        (same-Remembers hostname key existing keys past r e, rw (sym (r hostname) ∙ e) refl)
]

callbacks_lem :
    (keys : Assoc Text) (past hist : List (Text × Text))
    → Remembers keys past
    → callbacks keys hist ≡ accept_new past hist
unfolding callbacks
callbacks_lem keys past [] r = refl
callbacks_lem keys past ((hostname, key) ∷ rest) r =
    let (kept, same) = callback-Remembers hostname key keys past r in
    ap₂ ◌∷◌ same
      (callbacks_lem (callback hostname key keys).0 (past ++ ((hostname, key) ∷ [])) rest kept)

-- Over any sequence of presented keys, the store that starts empty answers as accept-new promises: a
-- host's first key is accepted, and a later one exactly when it is the first again; any other is
-- refused as a mismatch.
pub callbacks-accept_new : (hist : List (Text × Text)) → callbacks [] hist ≡ accept_new [] hist
unfolding lookup
callbacks-accept_new hist = callbacks_lem [] [] hist (λ hostname. refl)
