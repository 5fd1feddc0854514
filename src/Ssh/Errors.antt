-- ===== src/Ssh/Errors.antt =====
-- `mapSshError` of transport/ssh/errors.go. Each regular expression is a list of phrases under `(?i)`;
-- case is folded for ASCII letters. The nil error, which the function gives back, is no `GoError`.
use goros.Common.{
  Text, text, text_eq, ℕ, Bool, true, false, ◌||◌, List, [], ◌∷◌, none, some, if◌then◌else◌,
  is_empty, ◌≡◌, refl, ◌⊎◌, inl, inr, Option-cases,
}
use goros.Gate.Classify.{strip_fold}
use goros.Roserr.{
  GoError, Info, Code, text_value, Context, ros, cause, new_error, with_remediation, with_context,
  with_cause, code_host_key_mismatch, code_auth_failed, code_connection_refused, code_timeout,
  code_dns, code_network,
}
use goros.Roserr.Chain.{as_ros, is_code}
use goros.Roserr.Render.{Formats, error_text}

abbrev starts_fold : Text → Text → Bool
starts_fold phrase s = elim (strip_fold phrase s) [ none ↦ false | some rest ↦ true ]

-- `MatchString` of a phrase.
unfoldable pub contains_fold : Text → Text → Bool
contains_fold phrase [] = starts_fold phrase []
contains_fold phrase (c ∷ s) = starts_fold phrase (c ∷ s) || contains_fold phrase s

-- `MatchString` of an alternation of phrases.
unfoldable pub contains_any : List Text → Text → Bool
contains_any [] s = false
contains_any (phrase ∷ phrases) s = contains_fold phrase s || contains_any phrases s

abbrev pub host_key_mismatch_re : List Text
host_key_mismatch_re = text "host key verification failed" ∷ text "host key mismatch" ∷ []

abbrev pub auth_failed_re : List Text
auth_failed_re =
    text "unable to authenticate"
    ∷ text "permission denied"
    ∷ text "authentication failed"
    ∷ text "no supported methods remain"
    ∷ text "no such identity"
    ∷ text "too many authentication failures"
    ∷ text "failed to login"
    ∷ []

abbrev pub connection_refused_re : List Text
connection_refused_re = text "connection refused" ∷ []

abbrev pub timeout_re : List Text
timeout_re =
    text "i/o timeout"
    ∷ text "connection timed out"
    ∷ text "timed out"
    ∷ text "deadline exceeded"
    ∷ []

abbrev pub dns_re : List Text
dns_re =
    text "no such host"
    ∷ text "could not resolve"
    ∷ text "name or service not known"
    ∷ text "server misbehaving"
    ∷ text "no route to host"
    ∷ []

abbrev pub op_context : Text → ℕ → Text → Context
op_context host port op = record {
  via = text "ssh";
  host = host;
  port = port;
  path = [];
  extra = if is_empty op then [] else (text "op", text_value op) ∷ [];
}

-- The switch: the code of the first class that the message falls in, and its hint.
unfoldable pub classify_message : Text → Code × Text
classify_message msg =
    if contains_any host_key_mismatch_re msg
    then (
      code_host_key_mismatch,
      text
          "confirm the device identity; pin the key via WithKnownHosts, or opt out explicitly with WithHostKeyPolicy(ssh.HostKeyInsecure)",
    )
    else if contains_any auth_failed_re msg
    then (
      code_auth_failed,
      text
          "check the username/password or private key. Note: RouterOS refuses password login once an SSH key is set for the user.",
    )
    else if contains_any connection_refused_re msg
    then (
      code_connection_refused,
      text "confirm the RouterOS SSH service is enabled (ip service ssh) and reachable on port 22",
    )
    else if contains_any timeout_re msg
    then (
      code_timeout,
      text "check reachability and latency; raise WithTimeout if the device is slow",
    )
    else if contains_any dns_re msg
    then (code_dns, text "check the hostname/address")
    else (code_network, [])

-- An error outside the taxonomy, in it. The fallback sets no remediation, which is the empty one.
abbrev pub classified : Formats → Text → ℕ → Text → GoError → GoError
classified f host port op e =
    let msg = error_text f e in
    let (code, hint) = classify_message msg in
    new_error code msg
      (with_remediation hint ∷ with_context (op_context host port op) ∷ with_cause e ∷ [])

unfoldable pub map_ssh_error : Formats → GoError → Text → ℕ → Text → GoError
map_ssh_error f e host port op = elim (as_ros e) [
  | none ↦ classified f host port op e
  | some info ↦ e
]

-- The codes that the mapping gives.
abbrev pub IsSshCode : Code → Type 0
IsSshCode code =
    (code ≡ code_host_key_mismatch)
    ⊎ (code ≡ code_auth_failed)
    ⊎ (code ≡ code_connection_refused)
    ⊎ (code ≡ code_timeout)
    ⊎ (code ≡ code_dns)
    ⊎ (code ≡ code_network)

if_IsSshCode :
    (b : Bool) (x y : Code × Text)
    → IsSshCode x.0
    → IsSshCode y.0
    → IsSshCode (if b then x else y).0
if_IsSshCode true x y hx hy = hx
if_IsSshCode false x y hx hy = hy

classify_message-IsSshCode : (msg : Text) → IsSshCode (classify_message msg).0
unfolding classify_message
classify_message-IsSshCode msg = if_IsSshCode _ _ _ (inl refl) (
    if_IsSshCode _ _ _ (inr (inl refl)) (
      if_IsSshCode _ _ _ (inr (inr (inl refl))) (
        if_IsSshCode _ _ _ (inr (inr (inr (inl refl)))) (
          if_IsSshCode _ _ _ (inr (inr (inr (inr (inl refl)))))
            (inr (inr (inr (inr (inr refl)))))))))

-- What the mapping makes of an error that is not in the taxonomy.
pub record Mapped (f : Formats) (e : GoError) (host : Text) (port : ℕ) (op : Text)
    (mapped : GoError) : Type 0 where
  pub info : Info
  pub is_ros : mapped ≡ ros info (cause e)
  pub its_code : IsSshCode info.code
  pub its_summary : info.summary ≡ error_text f e
  pub its_context : info.context ≡ op_context host port op

-- The mapping leaves an error that is, or wraps, one of the taxonomy as it is, and makes of any other
-- one of six codes, with the error's text as its summary, the place of the failure as its context,
-- and the error itself as its cause.
pub map_ssh_error_lem :
    (f : Formats) (e : GoError) (host : Text) (port : ℕ) (op : Text)
    → ((info : Info) × (as_ros e ≡ some info) × (map_ssh_error f e host port op ≡ e))
      ⊎ ((as_ros e ≡ none) × Mapped f e host port op (map_ssh_error f e host port op))
unfolding map_ssh_error
map_ssh_error_lem f e host port op = elim (Option-cases (as_ros e)) [
  | inr (info, p) ↦ inl (info, p, rw (p, map_ssh_error) refl)
  | inl p ↦ inr (
    p,
    rw (p, map_ssh_error)
        (record {
          info = _;
          is_ros = refl;
          its_code = classify_message-IsSshCode (error_text f e);
          its_summary = refl;
          its_context = refl;
        }),
  )
]

map_ssh_error-of_ros :
    (f : Formats) (e : GoError) (info : Info) (host : Text) (port : ℕ) (op : Text)
    → as_ros e ≡ some info
    → map_ssh_error f e host port op ≡ e
unfolding map_ssh_error
map_ssh_error-of_ros f e info host port op p = rw (p, map_ssh_error) refl

under_any : (a b : Bool) → b ≡ true → (a || b) ≡ true
under_any true b h = refl
under_any false b h = h

-- The error is, or wraps, one of the taxonomy.
abbrev pub InTaxonomy : GoError → Type 0
InTaxonomy e = (info : Info) × (as_ros e ≡ some info)

-- The mapping gives an error of the taxonomy.
pub map_ssh_error-as_ros :
    (f : Formats) (e : GoError) (host : Text) (port : ℕ) (op : Text)
    → InTaxonomy (map_ssh_error f e host port op)
unfolding as_ros
map_ssh_error-as_ros f e host port op = elim (map_ssh_error_lem f e host port op) [
  | inl (info, p, same) ↦ (info, rw same p)
  | inr (p, m) ↦ (m.info, rw m.is_ros refl)
]

-- Mapping a mapped error again, at whatever place, changes nothing.
pub map_ssh_error-map_ssh_error :
    (f : Formats) (e : GoError) (host host' : Text) (port port' : ℕ) (op op' : Text)
    → map_ssh_error f (map_ssh_error f e host port op) host' port' op'
      ≡ map_ssh_error f e host port op
map_ssh_error-map_ssh_error f e host host' port port' op op' =
    let (info, p) = map_ssh_error-as_ros f e host port op in
    rw (map_ssh_error-of_ros f (map_ssh_error f e host port op) info host' port' op' p) refl

-- Whatever code an error carries, the mapped error carries.
pub map_ssh_error-is_code :
    (f : Formats) (e : GoError) (host : Text) (port : ℕ) (op : Text) (code : Code)
    → is_code code e ≡ true
    → is_code code (map_ssh_error f e host port op) ≡ true
unfolding is_code
map_ssh_error-is_code f e host port op code h = elim (map_ssh_error_lem f e host port op) [
  | inl (info, p, same) ↦ rw same h
  | inr (p, m) ↦ rw m.is_ros (under_any (text_eq m.info.code code) (is_code code e) h)
]
