-- ===== src/Gate/Attributes/Order.antt =====
-- `Validate` of gate/gate2.go does not depend on the order in which a range meets the attributes.
use goros.Common.{
  ℕ, Text, text_eq, Bool, List, [], ◌∷◌, Option, none, some, ◌≡◌, refl, sym, subst, ap, ◌∙◌, inl,
  inr, if◌then◌else◌, Bool-cases,
}
use goros.Common.Assoc.{Assoc, keys}
use goros.Common.Sort.{text_le, sort_insert, sort_texts, sort_texts-perm}
use goros.Roserr.{GoError, Result, ok, err}
use goros.Transport.{Command}
use goros.Transport.Order.{SameMap}
use goros.Schema.{CommandSchema, category_unknown, has_attribute}
use goros.Schema.Store.{Device, Store, discover}
use goros.Gate.Syntax.{skips}
use goros.Gate.Attributes.{unknown_keys, unknown_attributes, report, judge, validate}
use mathlib.Core.Logic.{∥∥₁_elim}
use mathlib.Core.List.{Perm, Permᴰ, Perm-prop}
use mathlib.Core.List.Perm

kept_key : CommandSchema → Text → List Text → List Text
kept_key sch k rest = if has_attribute sch k then rest else k ∷ rest

Perm-kept_key :
    (sch : CommandSchema) (k : Text) {l r : List Text}
    → Perm l r
    → Perm (kept_key sch k l) (kept_key sch k r)
unfolding kept_key
Perm-kept_key sch k p = elim (Bool-cases (has_attribute sch k)) [
  | inl e ↦ rw e p
  | inr e ↦ rw e (Perm.cons k p)
]

kept_key-swap :
    (sch : CommandSchema) (a b : Text) (l : List Text)
    → Perm (kept_key sch a (kept_key sch b l)) (kept_key sch b (kept_key sch a l))
unfolding kept_key
kept_key-swap sch a b l = elim (Bool-cases (has_attribute sch a)) [
  | inl e ↦ rw e Perm.rfl
  | inr e ↦ elim (Bool-cases (has_attribute sch b)) [
    | inl f ↦ rw (e, f) Perm.rfl
    | inr f ↦ rw (e, f) (Perm.swap b a l)
  ]
]

unknown_keys-permᴰ :
    (sch : CommandSchema) {l r : List Text}
    → Permᴰ l r
    → Perm (unknown_keys sch l) (unknown_keys sch r)
unfolding unknown_keys kept_key
unknown_keys-permᴰ sch Permᴰ.nil = Perm.rfl
unknown_keys-permᴰ sch (Permᴰ.cons {a = a} {l₁ = l} {l₂ = r} e p) =
    subst (λ b. Perm (kept_key sch a (unknown_keys sch l)) (kept_key sch b (unknown_keys sch r))) e
      (Perm-kept_key sch a (unknown_keys-permᴰ sch p))
unknown_keys-permᴰ sch (Permᴰ.swap {a = a} {b = b} {b' = b'} {l = l} e f) =
    let rest = unknown_keys sch l in
    let both = kept_key sch a (kept_key sch b rest) in
    subst (λ c. Perm both (kept_key sch c (kept_key sch b' rest))) f
      (subst (λ d. Perm both (kept_key sch b (kept_key sch d rest))) e (kept_key-swap sch a b rest))
unknown_keys-permᴰ sch (Permᴰ.trans p q) =
    Perm.trans (unknown_keys-permᴰ sch p) (unknown_keys-permᴰ sch q)

pub unknown_keys-perm :
    (sch : CommandSchema) {l r : List Text}
    → Perm l r
    → Perm (unknown_keys sch l) (unknown_keys sch r)
unknown_keys-perm sch p = ∥∥₁_elim p Perm-prop (unknown_keys-permᴰ sch)

-- `report` by the sorted names.
report_sorted : Command → CommandSchema → List Text → Option GoError
report_sorted cmd sch [] = none
report_sorted cmd sch (k ∷ ks) = some (unknown_attributes cmd sch (k ∷ ks))

report_inserted :
    (cmd : Command) (sch : CommandSchema) (k : Text) (l : List Text)
    → some (unknown_attributes cmd sch (sort_insert k l)) ≡ report_sorted cmd sch (sort_insert k l)
unfolding sort_insert report_sorted
report_inserted cmd sch k [] = refl
report_inserted cmd sch k (y ∷ l) = elim (Bool-cases (text_le k y)) [
  | inl e ↦ rw e refl
  | inr e ↦ rw e refl
]

report-sorted :
    (cmd : Command) (sch : CommandSchema) (ks : List Text)
    → report cmd sch ks ≡ report_sorted cmd sch (sort_texts ks)
unfolding sort_texts report_sorted
report-sorted cmd sch [] = refl
report-sorted cmd sch (k ∷ ks) = report_inserted cmd sch k (sort_texts ks)

-- The same command met with its attributes in another order.
abbrev pub reordered : Command → Assoc Text → Command
reordered cmd m = record cmd { attributes = m }

judge-same :
    (cmd : Command) (m : Assoc Text) (r : Result CommandSchema)
    → SameMap cmd.attributes m
    → judge cmd r ≡ judge (reordered cmd m) r
judge-same cmd m (err e) same = refl
judge-same cmd m (ok sch) same =
    let found = sort_texts-perm (unknown_keys-perm sch same.same_keys) in
    ap (λ e. if text_eq sch.category category_unknown then none else e)
      (report-sorted cmd sch (unknown_keys sch (keys cmd.attributes))
        ∙ ap (report_sorted cmd sch) found
        ∙ sym (report-sorted cmd sch (unknown_keys sch (keys m))))

-- `Gate2.Validate` returns the same error and leaves the same store in whatever order a range meets the
-- attributes of the command.
pub validate_same :
    (device : Device) (later now : ℕ) (supports : Option Bool) (cmd : Command) (m : Assoc Text)
    (s : Store)
    → SameMap cmd.attributes m
    → validate device later now supports cmd s
      ≡ validate device later now supports (reordered cmd m) s
unfolding validate
validate_same device later now supports cmd m s same =
    let (s', r) = discover device later cmd.path cmd.verb now s in
    ap (λ e. if skips supports then (s, none) else (s', e)) (judge-same cmd m r same)
