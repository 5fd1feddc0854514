-- ===== src/Gate/Attributes/Laws.antt =====
-- What the attribute gate accepts, and what it reports.
use goros.Common.{
  ℕ, Text, text_eq, text_eq_iff, Bool, true, false, ◌&&◌, List, [], ◌∷◌, Option, none, ◌≡◌, refl,
  ◌⊎◌, inl, inr, ◌↔◌, Bool-cases, if◌then◌else◌,
}
use goros.Common.Assoc.{keys}
use goros.Roserr.{Result, ok, err}
use goros.Transport.{Command}
use goros.Schema.{CommandSchema, category_unknown, has_attribute}
use goros.Schema.Store.{Device, Store, discover}
use goros.Gate.Syntax.{skips}
use goros.Gate.Attributes.{unknown_keys, report, judge, validate}

-- Whether the schema knows every key.
abbrev pub knows_all : CommandSchema → List Text → Bool
knows_all sch [] = true
knows_all sch (k ∷ ks) = has_attribute sch k && knows_all sch ks

knows_all_iff :
    (sch : CommandSchema) (ks : List Text) → (knows_all sch ks ≡ true) ↔ (unknown_keys sch ks ≡ [])
unfolding unknown_keys
knows_all_iff sch [] = (λ h. refl, λ h. refl)
knows_all_iff sch (k ∷ ks) = elim (Bool-cases (has_attribute sch k)) [
  | inl e ↦ rw e (knows_all_iff sch ks)
  | inr e ↦ rw e (λ h. absurd (cc h), λ h. absurd (cc h))
]

report-none :
    (cmd : Command) (sch : CommandSchema) (ks : List Text) → (report cmd sch ks ≡ none) ↔ (ks ≡ [])
report-none cmd sch [] = (λ h. refl, λ h. refl)
report-none cmd sch (k ∷ ks) = (λ h. absurd (cc h), λ h. absurd (cc h))

-- The discovered schema lets the command pass.
abbrev pub Passes : Command → Result CommandSchema → Type 0
Passes cmd (err e) = ⊥
Passes cmd (ok sch) =
    (sch.category ≡ category_unknown) ⊎ (knows_all sch (keys cmd.attributes) ≡ true)

judge_iff : (cmd : Command) (r : Result CommandSchema) → (judge cmd r ≡ none) ↔ Passes cmd r
judge_iff cmd (err e) = (λ h. absurd (cc h), λ h. absurd h)
judge_iff cmd (ok sch) =
    let missing = unknown_keys sch (keys cmd.attributes) in
    let known = knows_all_iff sch (keys cmd.attributes) in
    let left = report-none cmd sch missing in
    elim (Bool-cases (text_eq sch.category category_unknown)) [
      | inl u ↦ rw u (λ h. inl ((text_eq_iff sch.category category_unknown).0 u), λ h. refl)
      | inr u ↦ rw u (
        λ h. inr (known.1 (left.0 h)),
        λ h. elim h [
          | inl same ↦ absurd (cc (u, (text_eq_iff sch.category category_unknown).1 same))
          | inr all ↦ left.1 (known.0 all)
        ],
      )
    ]

module _ (device : Device) (later now : ℕ) (supports : Option Bool) (cmd : Command)
    (s : Store) where
  -- `Gate2.Validate` returns no error exactly when the session cannot inspect, or `Discover` returns a
  -- schema that is of the unknown category or has every attribute that the command names. What it
  -- does to the store is what `Discover` does.
  pub validate_accepts_iff :
      (((validate device later now supports cmd s).1 ≡ none) ↔ (
        (skips supports ≡ true)
        ⊎ ((skips supports ≡ false)
            × Passes cmd (discover device later cmd.path cmd.verb now s).1)))
      × ((validate device later now supports cmd s).0
          ≡ (if skips supports then s else (discover device later cmd.path cmd.verb now s).0))
  unfolding validate
  validate_accepts_iff =
      let found = judge_iff cmd (discover device later cmd.path cmd.verb now s).1 in
      elim (Bool-cases (skips supports)) [
        | inl e ↦ rw e ((λ h. inl refl, λ h. refl), refl)
        | inr e ↦ rw e (
          (
            λ h. inr (refl, found.0 h),
            λ h. elim h [ inl skip ↦ absurd (cc skip) | inr (go, p) ↦ found.1 p ],
          ),
          refl,
        )
      ]
