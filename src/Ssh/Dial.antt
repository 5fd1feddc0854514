-- ===== src/Ssh/Dial.antt =====
-- `Dial`, its options, `buildAuth` and `hostKeyCallback` of transport/ssh/ssh.go, over what the
-- packages net, os, golang.org/x/crypto/ssh and its knownhosts give.
pub mod Auth
pub mod Laws
use goros.Common.{
  Text, text, ℕ, Bool, true, false, List, [], ◌∷◌, ◌++◌, Option, none, some, if◌then◌else◌,
  is_empty,
}
use goros.Common.Assoc.{Assoc}
use goros.Roserr.{
  GoError, Result, ok, err, ◌>>=◌, code_auth_failed, code_network, new_error, with_remediation,
  with_context, with_cause,
}
use goros.Roserr.Render.{Formats}
use goros.Ssh.HostKeys.{ssh_context, callback}
use goros.Ssh.Errors.{map_ssh_error}

pub data HostKeyPolicy : Type 0 where
  host_key_tofu host_key_insecure : HostKeyPolicy

-- `ssh.AuthMethod`, with the signers of the package.
pub data AuthMethod (Signer : Type 0) : Type 0 where
  password : Text → AuthMethod Signer
  public_keys : Signer → AuthMethod Signer

-- `ssh.HostKeyCallback`: the package's callback that ignores keys, one of a known_hosts file, and that
-- of a `hostKeyStore`, whose keys are state.
pub data HostKeyCallback : Type 0 where
  insecure_ignore_host_key : HostKeyCallback
  pinned : (Text → Text → Option GoError) → HostKeyCallback
  store_callback : HostKeyCallback

abbrev pub call : HostKeyCallback → Text → Text → Assoc Text → Assoc Text × Option GoError
call insecure_ignore_host_key hostname key keys = (keys, none)
call (pinned known) hostname key keys = (keys, known hostname key)
call store_callback hostname key keys = callback hostname key keys

-- The durations are in seconds.
pub record DialConfig (Signer : Type 0) : Type 0 where
  pub auth : List (AuthMethod Signer)
  pub pem_keys : List Text
  pub key_files : List Text
  pub host_key : HostKeyPolicy
  pub known_hosts : Text
  pub timeout : ℕ

pub record ClientConfig (Signer : Type 0) : Type 0 where
  pub user : Text
  pub auth_methods : List (AuthMethod Signer)
  pub host_key_callback : HostKeyCallback
  pub dial_timeout : ℕ

-- What the code calls outside the repository. `atoi` is `strconv.Atoi` with its error ignored.
pub record Platform (Signer Conn : Type 0) : Type 0 where
  pub formats : Formats
  pub split_host_port : Text → Result (Text × Text)
  pub atoi : Text → ℕ
  pub parse_private_key : Text → Result Signer
  pub read_file : Text → Result Text
  pub known_hosts_new : Text → Result (Text → Text → Option GoError)
  pub dial_tcp : Text → ClientConfig Signer → Result Conn

-- The fields of `Client` but its mutex.
pub record SshClient (Conn : Type 0) : Type 0 where
  pub conn : Option Conn
  pub host : Text
  pub port : ℕ

abbrev pub DialOption : Type 0 → Type 0
DialOption Signer = DialConfig Signer → DialConfig Signer

module _ {Signer : Type 0} where
  abbrev pub default_config : DialConfig Signer
  default_config = record {
    auth = [];
    pem_keys = [];
    key_files = [];
    host_key = host_key_tofu;
    known_hosts = [];
    timeout = 10;
  }

  abbrev pub with_password : Text → DialOption Signer
  with_password pass c = record c { auth = c.auth ++ (password pass ∷ []) }

  abbrev pub with_private_key : Text → DialOption Signer
  with_private_key pem c = record c { pem_keys = c.pem_keys ++ (pem ∷ []) }

  abbrev pub with_private_key_file : Text → DialOption Signer
  with_private_key_file path c = record c { key_files = c.key_files ++ (path ∷ []) }

  abbrev pub with_host_key_policy : HostKeyPolicy → DialOption Signer
  with_host_key_policy p c = record c { host_key = p }

  abbrev pub with_known_hosts : Text → DialOption Signer
  with_known_hosts path c = record c { known_hosts = path }

  abbrev pub with_timeout : ℕ → DialOption Signer
  with_timeout d c = record c { timeout = d }

  abbrev pub apply_dial_options : List (DialOption Signer) → DialConfig Signer → DialConfig Signer
  apply_dial_options [] c = c
  apply_dial_options (o ∷ opts) c = apply_dial_options opts (o c)

  module _ {Conn : Type 0} (p : Platform Signer Conn) where
    abbrev pub unparsable : Text → ℕ → Text → GoError → GoError
    unparsable host port src e =
        new_error code_auth_failed (text "cannot parse private key: " ++ src) (
          with_remediation (text "provide an unencrypted PEM private key")
          ∷ with_context (ssh_context host port)
          ∷ with_cause e
          ∷ [])

    abbrev pub key_parsed :
        Text
        → ℕ
        → Text
        → List (AuthMethod Signer)
        → Result Signer
        → Result (List (AuthMethod Signer))
    key_parsed host port src auth (err e) = err (unparsable host port src e)
    key_parsed host port src auth (ok signer) = ok (auth ++ (public_keys signer ∷ []))

    -- The closure `addKey`, given the methods so far.
    unfoldable pub add_key :
        Text → ℕ → Text → Text → List (AuthMethod Signer) → Result (List (AuthMethod Signer))
    add_key host port pem src auth = key_parsed host port src auth (p.parse_private_key pem)

    unfoldable pub add_pem_keys :
        Text → ℕ → List Text → List (AuthMethod Signer) → Result (List (AuthMethod Signer))
    add_pem_keys host port [] auth = ok auth
    add_pem_keys host port (pem ∷ pems) auth = do
      more ← add_key host port pem (text "WithPrivateKey") auth
      add_pem_keys host port pems more

    abbrev pub file_read :
        Text → ℕ → Text → List (AuthMethod Signer) → Result Text → Result (List (AuthMethod Signer))
    file_read host port path auth (err e) =
        err (map_ssh_error p.formats e host port (text "read-key"))
    file_read host port path auth (ok pem) = add_key host port pem path auth

    -- One file of the loop over `keyFiles`.
    unfoldable pub add_key_file :
        Text → ℕ → Text → List (AuthMethod Signer) → Result (List (AuthMethod Signer))
    add_key_file host port path auth = file_read host port path auth (p.read_file path)

    unfoldable pub add_key_files :
        Text → ℕ → List Text → List (AuthMethod Signer) → Result (List (AuthMethod Signer))
    add_key_files host port [] auth = ok auth
    add_key_files host port (path ∷ paths) auth = do
      more ← add_key_file host port path auth
      add_key_files host port paths more

    abbrev pub no_auth_method : Text → ℕ → GoError
    no_auth_method host port =
        new_error code_auth_failed (text "no authentication method configured") (
          with_remediation (text "provide WithPassword, WithPrivateKey, or WithPrivateKeyFile")
          ∷ with_context (ssh_context host port)
          ∷ [])

    abbrev pub require_auth :
        Text → ℕ → List (AuthMethod Signer) → Result (List (AuthMethod Signer))
    require_auth host port [] = err (no_auth_method host port)
    require_auth host port (a ∷ auth) = ok (a ∷ auth)

    unfoldable pub build_auth : DialConfig Signer → Text → ℕ → Result (List (AuthMethod Signer))
    build_auth cfg host port = do
      with_pems ← add_pem_keys host port cfg.pem_keys cfg.auth
      with_files ← add_key_files host port cfg.key_files with_pems
      require_auth host port with_files

    abbrev pub unreadable_known_hosts : Text → ℕ → GoError → GoError
    unreadable_known_hosts host port e =
        new_error code_network (text "cannot read known_hosts file") (
          with_remediation (text "check the path given to WithKnownHosts")
          ∷ with_context (ssh_context host port)
          ∷ with_cause e
          ∷ [])

    abbrev pub pinned_to : Text → ℕ → Result (Text → Text → Option GoError) → Result HostKeyCallback
    pinned_to host port (err e) = err (unreadable_known_hosts host port e)
    pinned_to host port (ok known) = ok (pinned known)

    abbrev pub verify_host_key : HostKeyPolicy → Text → Text → ℕ → Result HostKeyCallback
    verify_host_key host_key_insecure known host port = ok insecure_ignore_host_key
    verify_host_key host_key_tofu known host port =
        if is_empty known then ok store_callback else pinned_to host port (p.known_hosts_new known)

    unfoldable pub host_key_callback_of : DialConfig Signer → Text → ℕ → Result HostKeyCallback
    host_key_callback_of cfg host port = verify_host_key cfg.host_key cfg.known_hosts host port

    abbrev pub connected : Text → ℕ → Result Conn → Result (SshClient Conn)
    connected host port (err e) = err (map_ssh_error p.formats e host port (text "dial"))
    connected host port (ok conn) = ok (record { conn = some conn; host = host; port = port })

    unfoldable pub dial_host : DialConfig Signer → Text → Text → Text → ℕ → Result (SshClient Conn)
    dial_host cfg addr user host port = do
      auth ← build_auth cfg host port
      cb ← host_key_callback_of cfg host port
      connected host port (
          p.dial_tcp addr (record {
            user = user;
            auth_methods = auth;
            host_key_callback = cb;
            dial_timeout = cfg.timeout;
          }))

    abbrev pub split_dial :
        DialConfig Signer → Text → Text → Result (Text × Text) → Result (SshClient Conn)
    split_dial cfg addr user (err e) = err (map_ssh_error p.formats e addr 0 (text "dial"))
    split_dial cfg addr user (ok (host, port_str)) = dial_host cfg addr user host (p.atoi port_str)

    abbrev pub unless_ctx_done :
        DialConfig Signer → Text → Text → Option GoError → Result (SshClient Conn)
    unless_ctx_done cfg addr user none = split_dial cfg addr user (p.split_host_port addr)
    unless_ctx_done cfg addr user (some e) = err e

    -- `Dial`, where `ctx` is what `ctx.Err()` returns.
    unfoldable pub dial :
        Option GoError → Text → Text → List (DialOption Signer) → Result (SshClient Conn)
    dial ctx addr user opts = unless_ctx_done (apply_dial_options opts default_config) addr user ctx
