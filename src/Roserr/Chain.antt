-- ===== src/Roserr/Chain.antt =====
-- `Error.Unwrap`, `Error.Is`, `IsCode` and `ContextOf` of roserr.go over a chain of causes, as
-- `errors.Is` and `errors.As` walk it: an error first, then what it wraps, depth first.
use goros.Common.{
  Text, text_eq, text_eq_refl, text_eq_iff, Bool, true, false, ◌||◌, Option, none, some,
}
use goros.Common.{◌≡◌, ◌↔◌, inl, inr, arith, Bool-cases}
use goros.Proto.Sentence.{Sentence}
use goros.Roserr.{Code, Context, Info, GoError, Cause, GoErrors, no_context}
use goros.Roserr.{ros, device, wrapped, no_cause, cause, nil, cons}

-- `errors.As` takes the first match.
abbrev or_else {ℓ} : {A : Type ℓ} → Option A → Option A → Option A
or_else none b = b
or_else (some a) b = some a

unfoldable mutual
  pub is_code : Code → GoError → Bool
  is_code code (ros info c) = text_eq info.code code || is_code_cause code c
  is_code code (wrapped s es) = is_code_any code es
  is_code code _ = false

  pub is_code_cause : Code → Cause → Bool
  is_code_cause code no_cause = false
  is_code_cause code (cause e) = is_code code e

  pub is_code_any : Code → GoErrors → Bool
  is_code_any code nil = false
  is_code_any code (cons e es) = is_code code e || is_code_any code es

unfoldable mutual
  -- `errors.As(err, &devErr)` for a `*DeviceError`
  pub as_device : GoError → Option Sentence
  as_device (device sen) = some sen
  as_device (ros info c) = as_device_cause c
  as_device (wrapped s es) = as_device_any es
  as_device _ = none

  pub as_device_cause : Cause → Option Sentence
  as_device_cause no_cause = none
  as_device_cause (cause e) = as_device e

  pub as_device_any : GoErrors → Option Sentence
  as_device_any nil = none
  as_device_any (cons e es) = or_else (as_device e) (as_device_any es)

unfoldable mutual
  -- `errors.As(err, &e)` for a `*roserr.Error`, here its fields but the cause
  pub as_ros : GoError → Option Info
  as_ros (ros info c) = some info
  as_ros (wrapped s es) = as_ros_any es
  as_ros _ = none

  pub as_ros_any : GoErrors → Option Info
  as_ros_any nil = none
  as_ros_any (cons e es) = or_else (as_ros e) (as_ros_any es)

unfoldable pub context_of : GoError → Context × Bool
context_of e = elim (as_ros e) [ none ↦ (no_context, false) | some i ↦ (i.context, true) ]

-- `Carries code e`: `e`, or an error reached from it by unwrapping, is a `*roserr.Error` of `code`.
mutual
  pub data Carries (code : Code) : GoError → Type 0 where
    here : {info : Info} {c : Cause} → info.code ≡ code → Carries code (ros info c)
    under : {info : Info} {e : GoError} → Carries code e → Carries code (ros info (cause e))
    among : {s : Text} {es : GoErrors} → CarriesAny code es → Carries code (wrapped s es)

  pub data CarriesAny (code : Code) : GoErrors → Type 0 where
    first : {e : GoError} {es : GoErrors} → Carries code e → CarriesAny code (cons e es)
    later : {e : GoError} {es : GoErrors} → CarriesAny code es → CarriesAny code (cons e es)

mutual
  unfolding is_code

  is_code→Carries : (code : Code) (e : GoError) → is_code code e ≡ true → Carries code e
  is_code→Carries code (ros info c) h = elim (Bool-cases (text_eq info.code code)) [
    | inl e ↦ Carries.here ((text_eq_iff _ _).0 e)
    | inr e ↦ is_code_cause→Carries code info c (rw e at h)
  ]
  is_code→Carries code (wrapped s es) h = Carries.among (is_code_any→Carries code es h)
  is_code→Carries code _ h = absurd (cc)

  is_code_cause→Carries :
      (code : Code) (info : Info) (c : Cause)
      → is_code_cause code c ≡ true
      → Carries code (ros info c)
  is_code_cause→Carries code info no_cause h = absurd (cc)
  is_code_cause→Carries code info (cause e) h = Carries.under (is_code→Carries code e h)

  is_code_any→Carries :
      (code : Code) (es : GoErrors) → is_code_any code es ≡ true → CarriesAny code es
  is_code_any→Carries code nil h = absurd (cc)
  is_code_any→Carries code (cons e es) h = elim (Bool-cases (is_code code e)) [
    | inl p ↦ CarriesAny.first (is_code→Carries code e p)
    | inr p ↦ CarriesAny.later (is_code_any→Carries code es (rw p at h))
  ]

mutual
  unfolding is_code

  Carries→is_code : (code : Code) {e : GoError} → Carries code e → is_code code e ≡ true
  Carries→is_code code (Carries.here {info} p) = rw (p, text_eq_refl code)
  Carries→is_code code (Carries.under {info} h) = ground (arith, Carries→is_code code h)
  Carries→is_code code (Carries.among h) = CarriesAny→is_code_any code h

  CarriesAny→is_code_any :
      (code : Code) {es : GoErrors} → CarriesAny code es → is_code_any code es ≡ true
  CarriesAny→is_code_any code (CarriesAny.first h) = ground (arith, Carries→is_code code h)
  CarriesAny→is_code_any code (CarriesAny.later h) = ground (arith, CarriesAny→is_code_any code h)

-- `IsCode` holds of an error exactly when the error, or one that it wraps through causes and joins
-- at any depth, carries the code.
pub is_code_iff : (code : Code) (e : GoError) → (is_code code e ≡ true) ↔ Carries code e
is_code_iff code e = (is_code→Carries code e, Carries→is_code code)
