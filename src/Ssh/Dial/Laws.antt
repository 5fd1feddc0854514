-- ===== src/Ssh/Dial/Laws.antt =====
-- How `Dial` ends: with what it has connected, or with which errors.
use goros.Common.{Text, text, ℕ, List, [], ◌∷◌, Option, none, some, ◌≡◌, refl, ◌⊎◌, inl, inr, ap}
use goros.Roserr.{GoError, Result, ok, err}
use goros.Roserr.Chain.{as_ros}
use goros.Ssh.Errors.{InTaxonomy, map_ssh_error-as_ros}
use goros.Ssh.Dial.{
  HostKeyPolicy, host_key_tofu, host_key_insecure, AuthMethod, HostKeyCallback,
  insecure_ignore_host_key, pinned, store_callback, DialConfig, Platform, SshClient, DialOption,
  default_config, apply_dial_options, pinned_to, connected, split_dial, unless_ctx_done, build_auth,
  verify_host_key, host_key_callback_of, dial_host, dial,
}
use goros.Ssh.Dial.Auth.{Ends, bind-Ends, AllMethods, build_auth-Ends}

module _ {Signer Conn : Type 0} (p : Platform Signer Conn) (host : Text) (port : ℕ) where
  -- The check of a host's key that the options ask for: none under the insecure policy, whatever else
  -- they say; else the known_hosts file's where one is named, and accept-new where none is.
  abbrev pub Checks : DialConfig Signer → HostKeyCallback → Type 0
  Checks cfg cb =
      ((cfg.host_key ≡ host_key_insecure) × (cb ≡ insecure_ignore_host_key))
      ⊎ ((cfg.host_key ≡ host_key_tofu) × (cfg.known_hosts ≡ []) × (cb ≡ store_callback))
      ⊎ ((known : Text → Text → Option GoError) × (cfg.host_key ≡ host_key_tofu)
          × (p.known_hosts_new cfg.known_hosts ≡ ok known)
          × (cb ≡ pinned known))

  pinned-Ends :
      (cfg : DialConfig Signer) (r : Result (Text → Text → Option GoError))
      → cfg.host_key ≡ host_key_tofu
      → p.known_hosts_new cfg.known_hosts ≡ r
      → Ends (Checks cfg) (pinned_to p host port r)
  unfolding as_ros
  pinned-Ends cfg (err e) t q = (_, refl)
  pinned-Ends cfg (ok known) t q = inr (inr (known, t, q, refl))

  verify-Ends :
      (cfg : DialConfig Signer) (policy : HostKeyPolicy) (known : Text)
      → cfg.host_key ≡ policy
      → cfg.known_hosts ≡ known
      → Ends (Checks cfg) (verify_host_key p policy known host port)
  verify-Ends cfg host_key_insecure known t k = inl (t, refl)
  verify-Ends cfg host_key_tofu [] t k = inr (inl (t, k, refl))
  verify-Ends cfg host_key_tofu (c ∷ path) t k =
      pinned-Ends cfg (p.known_hosts_new (c ∷ path)) t (ap p.known_hosts_new k)

  host_key_callback-Ends :
      (cfg : DialConfig Signer) → Ends (Checks cfg) (host_key_callback_of p cfg host port)
  unfolding host_key_callback_of
  host_key_callback-Ends cfg = verify-Ends cfg cfg.host_key cfg.known_hosts refl refl

  -- What a connected client rests on.
  pub record Connected (cfg : DialConfig Signer) (addr user : Text) (c : SshClient Conn)
      : Type 0 where
    pub conn : Conn
    pub auth : List (AuthMethod Signer)
    pub check : HostKeyCallback
    pub its_methods : AllMethods p cfg auth
    pub its_check : Checks cfg check
    pub dialed :
        p.dial_tcp addr (record {
          user = user;
          auth_methods = auth;
          host_key_callback = check;
          dial_timeout = cfg.timeout;
        })
        ≡ ok conn
    pub its_conn : c ≡ record { conn = some conn; host = host; port = port }

  connected-Ends :
      (cfg : DialConfig Signer) (addr user : Text) (auth : List (AuthMethod Signer))
      (cb : HostKeyCallback) (r : Result Conn)
      → AllMethods p cfg auth
      → Checks cfg cb
      → p.dial_tcp addr (record {
        user = user;
        auth_methods = auth;
        host_key_callback = cb;
        dial_timeout = cfg.timeout;
      })
        ≡ r
      → Ends (Connected cfg addr user) (connected p host port r)
  connected-Ends cfg addr user auth cb (err e) a k q =
      map_ssh_error-as_ros p.formats e host port (text "dial")
  connected-Ends cfg addr user auth cb (ok conn) a k q = record {
    conn = conn;
    auth = auth;
    check = cb;
    its_methods = a;
    its_check = k;
    dialed = q;
    its_conn = refl;
  }

  dial_host-Ends :
      (cfg : DialConfig Signer) (addr user : Text)
      → Ends (Connected cfg addr user) (dial_host p cfg addr user host port)
  unfolding dial_host
  dial_host-Ends cfg addr user =
      bind-Ends (AllMethods p cfg) _ (build_auth p cfg host port) _
        (build_auth-Ends p host port cfg)
        (λ auth a.
          bind-Ends (Checks cfg) _ (host_key_callback_of p cfg host port) _
            (host_key_callback-Ends cfg) (λ cb k. connected-Ends cfg addr user auth cb _ a k refl))

module _ {Signer Conn : Type 0} (p : Platform Signer Conn) (addr user : Text) where
  -- The address splits, and the client is connected to its host.
  abbrev pub ConnectedTo : DialConfig Signer → SshClient Conn → Type 0
  ConnectedTo cfg c =
      (host : Text) × (port_str : Text) × (p.split_host_port addr ≡ ok (host, port_str))
      × Connected p host (p.atoi port_str) cfg addr user c

  located :
      (cfg : DialConfig Signer) (host port_str : Text) (r : Result (SshClient Conn))
      → p.split_host_port addr ≡ ok (host, port_str)
      → Ends (Connected p host (p.atoi port_str) cfg addr user) r
      → Ends (ConnectedTo cfg) r
  located cfg host port_str (ok c) q h = (host, port_str, q, h)
  located cfg host port_str (err e) q h = h

  split-Ends :
      (cfg : DialConfig Signer) (r : Result (Text × Text))
      → p.split_host_port addr ≡ r
      → Ends (ConnectedTo cfg) (split_dial p cfg addr user r)
  split-Ends cfg (err e) q = map_ssh_error-as_ros p.formats e addr 0 (text "dial")
  split-Ends cfg (ok (host, port_str)) q =
      located cfg host port_str (dial_host p cfg addr user host (p.atoi port_str)) q
        (dial_host-Ends p host (p.atoi port_str) cfg addr user)

  -- An error is the context's, where that was done at the start, or in the taxonomy.
  abbrev pub DialEnds : Option GoError → DialConfig Signer → Result (SshClient Conn) → Type 0
  DialEnds ctx cfg (ok c) = (ctx ≡ none) × ConnectedTo cfg c
  DialEnds ctx cfg (err e) = (ctx ≡ some e) ⊎ InTaxonomy e

  undone :
      (cfg : DialConfig Signer) (r : Result (SshClient Conn))
      → Ends (ConnectedTo cfg) r
      → DialEnds none cfg r
  undone cfg (ok c) h = (refl, h)
  undone cfg (err e) h = inr h

  unless_ctx_done-Ends :
      (cfg : DialConfig Signer) (ctx : Option GoError)
      → DialEnds ctx cfg (unless_ctx_done p cfg addr user ctx)
  unless_ctx_done-Ends cfg none =
      undone cfg (split_dial p cfg addr user (p.split_host_port addr))
        (split-Ends cfg (p.split_host_port addr) refl)
  unless_ctx_done-Ends cfg (some e) = inl refl

  -- Where `Dial` gives a client, the context was not done, the address split into a host and a port,
  -- and the client has these and the connection that was dialed with the methods of the options, then
  -- one for each key with what it is parsed to, then one for each file of a key, one at least in all, and
  -- with the check of the host's key that the options ask for. An error
  -- of `Dial` is the context's own or one of the taxonomy.
  pub dial-Ends :
      (ctx : Option GoError) (opts : List (DialOption Signer))
      → DialEnds ctx (apply_dial_options opts default_config) (dial p ctx addr user opts)
  unfolding dial
  dial-Ends ctx opts = unless_ctx_done-Ends (apply_dial_options opts default_config) ctx
