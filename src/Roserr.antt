-- ===== src/Roserr.antt =====
-- roserr/roserr.go, and the error values of the other packages: an `error` of Go is a `GoError`.
pub mod Chain
pub mod Render
mod Examples
use goros.Common.{Text, text, ℕ, List, [], ◌∷◌, ◌≡◌, refl, ◌⊎◌, inl, inr}
use goros.Common.Assoc.{Assoc}
use goros.Proto.Sentence.{Sentence}

abbrev pub Code : Type 0
Code = Text

abbrev pub code_unknown_path : Code
code_unknown_path = text "routeros/unknown-path"

abbrev pub code_unknown_attribute : Code
code_unknown_attribute = text "routeros/unknown-attribute"

abbrev pub code_invalid_value : Code
code_invalid_value = text "routeros/invalid-value"

abbrev pub code_command_failed : Code
code_command_failed = text "routeros/command-failed"

abbrev pub code_session_closed : Code
code_session_closed = text "routeros/session-closed"

abbrev pub code_validation_syntax : Code
code_validation_syntax = text "validation/syntax"

abbrev pub code_validation_unknown_attribute : Code
code_validation_unknown_attribute = text "validation/unknown-attribute"

abbrev pub code_auth_failed : Code
code_auth_failed = text "auth/failed"

abbrev pub code_connection_refused : Code
code_connection_refused = text "transport/connection-refused"

abbrev pub code_timeout : Code
code_timeout = text "transport/timeout"

abbrev pub code_dns : Code
code_dns = text "transport/dns"

abbrev pub code_network : Code
code_network = text "transport/network"

abbrev pub code_tls_certificate : Code
code_tls_certificate = text "transport/tls-certificate"

abbrev pub code_host_key_mismatch : Code
code_host_key_mismatch = text "transport/host-key-mismatch"

abbrev pub code_capability_unsupported : Code
code_capability_unsupported = text "transport/capability-unsupported"

-- The values that `Context.Extra` holds.
pub data Value : Type 0 where
  text_value : Text → Value
  number_value : ℕ → Value
  texts_value : List Text → Value

pub record Context : Type 0 where
  pub via : Text
  pub host : Text
  pub port : ℕ
  pub path : Text
  pub extra : Assoc Value

abbrev pub no_context : Context
no_context = record { via = []; host = []; port = 0; path = []; extra = [] }

-- The fields of `Error` but `Cause`.
pub record Info : Type 0 where
  pub code : Code
  pub summary : Text
  pub remediation : Text
  pub context : Context

-- `ros` is `*roserr.Error`. `wrapped` is an error of `fmt.Errorf` or `errors.Join` with the errors
-- it wraps; `external` is an error of a package outside the repository, by its text.
mutual
  pub data GoError : Type 0 where
    ros : Info → Cause → GoError
    device : Sentence → GoError
    unknown_reply : Sentence → GoError
    already_async async_loop_ended no_challenge invalid_challenge : GoError
    eof unexpected_eof : GoError
    canceled deadline_exceeded : GoError
    invalid_word : Text → GoError
    external : Text → GoError
    wrapped : Text → GoErrors → GoError

  pub data Cause : Type 0 where
    no_cause : Cause
    cause : GoError → Cause

  pub data GoErrors : Type 0 where
    nil : GoErrors
    cons : GoError → GoErrors → GoErrors

-- Go's (value, error) pair.
pub data Result {ℓ} (A : Type ℓ) : Type ℓ where
  ok : A → Result A
  err : GoError → Result A

infixl 5 ◌>>=◌
abbrev pub ◌>>=◌ {ℓ κ} : {A : Type ℓ} {B : Type κ} → Result A → (A → Result B) → Result B
ok a >>= f = f a
err e >>= f = err e

pub Result-cases {ℓ} :
    {A : Type ℓ} (r : Result A) → ((e : GoError) × (r ≡ err e)) ⊎ ((a : A) × (r ≡ ok a))
Result-cases (ok a) = inr (a, refl)
Result-cases (err e) = inl (e, refl)

-- The functional options of `New`.
abbrev pub ErrorOption : Type 0
ErrorOption = Info × Cause → Info × Cause

abbrev pub with_remediation : Text → ErrorOption
with_remediation s (i, c) = (record i { remediation = s }, c)

abbrev pub with_context : Context → ErrorOption
with_context x (i, c) = (record i { context = x }, c)

abbrev pub with_cause : GoError → ErrorOption
with_cause e (i, c) = (i, cause e)

abbrev pub apply_options : List ErrorOption → Info × Cause → Info × Cause
apply_options [] e = e
apply_options (o ∷ os) e = apply_options os (o e)

abbrev pub make : Info × Cause → GoError
make (i, c) = ros i c

-- `New`
abbrev pub new_error : Code → Text → List ErrorOption → GoError
new_error code summary opts = make (
    apply_options opts
      (record { code = code; summary = summary; remediation = []; context = no_context }, no_cause))
