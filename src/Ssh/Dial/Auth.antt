-- ===== src/Ssh/Dial/Auth.antt =====
-- How `buildAuth` ends: with the methods that are configured, or with which errors.
use goros.Common.{
  Text, text, ℕ, List, [], ◌∷◌, ◌++◌, length, ◌≡◌, refl, sym, ap, ◌∙◌, ◌<◌, arith, append_assoc,
  append-nil,
}
use goros.Roserr.{Result, ok, err, ◌>>=◌}
use goros.Roserr.Chain.{as_ros}
use goros.Ssh.Errors.{InTaxonomy, map_ssh_error-as_ros}
use goros.Ssh.Dial.{
  AuthMethod, DialConfig, Platform, key_parsed, file_read, add_key, add_pem_keys, add_key_file,
  add_key_files, require_auth, build_auth,
}

-- A success meets `P`, and an error is in the taxonomy.
abbrev pub Ends : {A : Type 0} → (A → Type 0) → Result A → Type 0
Ends P (ok a) = P a
Ends P (err e) = InTaxonomy e

-- A chain ends well where its first step does, and its second from there.
module _ {A B : Type 0} (First : A → Type 0) (Second : B → Type 0) where
  pub bind-Ends :
      (step : Result A) (next : A → Result B)
      → Ends First step
      → ((made : A) → First made → Ends Second (next made))
      → Ends Second (step >>= next)
  bind-Ends (ok made) next fine further = further made fine
  bind-Ends (err e) next fine further = fine

module _ {Signer Conn : Type 0} (p : Platform Signer Conn) where
  -- One method for each key, in order, with what the key is parsed to.
  abbrev pub KeysOf : List Text → List (AuthMethod Signer) → Type 0
  KeysOf [] methods = methods ≡ []
  KeysOf (pem ∷ pems) methods =
      (signer : Signer) × (rest : List (AuthMethod Signer)) × (p.parse_private_key pem ≡ ok signer)
      × (methods ≡ AuthMethod.public_keys signer ∷ rest)
      × KeysOf pems rest

  -- One method for each file, in order, with what the key that is read from it is parsed to.
  abbrev pub FilesOf : List Text → List (AuthMethod Signer) → Type 0
  FilesOf [] methods = methods ≡ []
  FilesOf (path ∷ paths) methods =
      (pem : Text) × (signer : Signer) × (rest : List (AuthMethod Signer)) × (p.read_file path
        ≡ ok pem)
      × (p.parse_private_key pem ≡ ok signer)
      × (methods ≡ AuthMethod.public_keys signer ∷ rest)
      × FilesOf paths rest

  -- The methods of the options, those of the keys and those of the files, and one at least.
  abbrev pub AllMethods : DialConfig Signer → List (AuthMethod Signer) → Type 0
  AllMethods cfg auth =
      (of_keys : List (AuthMethod Signer)) × (of_files : List (AuthMethod Signer)) × (auth
        ≡ cfg.auth ++ (of_keys ++ of_files))
      × KeysOf cfg.pem_keys of_keys
      × FilesOf cfg.key_files of_files
      × (0 < length auth)

  -- Methods that meet `Of` stand behind those before.
  abbrev Appends :
      (List (AuthMethod Signer) → Type 0)
      → List (AuthMethod Signer)
      → List (AuthMethod Signer)
      → Type 0
  Appends Of auth more =
      (methods : List (AuthMethod Signer)) × (more ≡ auth ++ methods) × Of methods

  nothing_more : (auth : List (AuthMethod Signer)) → Appends (λ m. m ≡ []) auth auth
  nothing_more auth = ([], sym (append-nil auth), refl)

  -- One method, and others behind it.
  one_more :
      (auth more : List (AuthMethod Signer)) (m : AuthMethod Signer)
      (rest : List (AuthMethod Signer))
      → more ≡ (auth ++ (m ∷ [])) ++ rest
      → more ≡ auth ++ (m ∷ rest)
  one_more auth more m rest e = e ∙ append_assoc auth (m ∷ []) rest

  -- What one key adds.
  abbrev AddsKey : Text → List (AuthMethod Signer) → List (AuthMethod Signer) → Type 0
  AddsKey pem auth more =
      (signer : Signer) × (p.parse_private_key pem ≡ ok signer)
      × (more ≡ auth ++ (AuthMethod.public_keys signer ∷ []))

  module _ (host : Text) (port : ℕ) where
    key_parsed-Ends :
        (pem src : Text) (auth : List (AuthMethod Signer)) (r : Result Signer)
        → p.parse_private_key pem ≡ r
        → Ends (AddsKey pem auth) (key_parsed p host port src auth r)
    unfolding as_ros
    key_parsed-Ends pem src auth (err e) q = (_, refl)
    key_parsed-Ends pem src auth (ok signer) q = (signer, q, refl)

    add_key-Ends :
        (pem src : Text) (auth : List (AuthMethod Signer))
        → Ends (AddsKey pem auth) (add_key p host port pem src auth)
    unfolding add_key
    add_key-Ends pem src auth = key_parsed-Ends pem src auth (p.parse_private_key pem) refl

    weaken :
        (First Second : List (AuthMethod Signer) → Type 0) (r : Result (List (AuthMethod Signer)))
        → ((auth : List (AuthMethod Signer)) → First auth → Second auth)
        → Ends First r
        → Ends Second r
    weaken First Second (ok auth) f h = f auth h
    weaken First Second (err e) f h = h

    add_pem_keys-Ends :
        (pems : List Text) (auth : List (AuthMethod Signer))
        → Ends (Appends (KeysOf pems) auth) (add_pem_keys p host port pems auth)
    unfolding add_pem_keys
    add_pem_keys-Ends [] auth = nothing_more auth
    add_pem_keys-Ends (pem ∷ pems) auth =
        bind-Ends (AddsKey pem auth) _ (add_key p host port pem (text "WithPrivateKey") auth) _
          (add_key-Ends pem (text "WithPrivateKey") auth)
          (λ more (signer, parsed, e).
            weaken (Appends (KeysOf pems) more) _ (add_pem_keys p host port pems more)
              (λ all (rest, f, keys). (
                AuthMethod.public_keys signer ∷ rest,
                one_more auth all _ rest (f ∙ ap (λ m. m ++ rest) e),
                (signer, rest, parsed, refl, keys),
              ))
              (add_pem_keys-Ends pems more))

    -- What one file adds.
    abbrev AddsFile : Text → List (AuthMethod Signer) → List (AuthMethod Signer) → Type 0
    AddsFile path auth more = (pem : Text) × (p.read_file path ≡ ok pem) × AddsKey pem auth more

    file_read-Ends :
        (path : Text) (auth : List (AuthMethod Signer)) (r : Result Text)
        → p.read_file path ≡ r
        → Ends (AddsFile path auth) (file_read p host port path auth r)
    file_read-Ends path auth (err e) q =
        map_ssh_error-as_ros p.formats e host port (text "read-key")
    file_read-Ends path auth (ok pem) q =
        weaken (AddsKey pem auth) _ (add_key p host port pem path auth) (λ more h. (pem, q, h))
          (add_key-Ends pem path auth)

    add_key_file-Ends :
        (path : Text) (auth : List (AuthMethod Signer))
        → Ends (AddsFile path auth) (add_key_file p host port path auth)
    unfolding add_key_file
    add_key_file-Ends path auth = file_read-Ends path auth (p.read_file path) refl

    add_key_files-Ends :
        (paths : List Text) (auth : List (AuthMethod Signer))
        → Ends (Appends (FilesOf paths) auth) (add_key_files p host port paths auth)
    unfolding add_key_files
    add_key_files-Ends [] auth = nothing_more auth
    add_key_files-Ends (path ∷ paths) auth =
        bind-Ends (AddsFile path auth) _ (add_key_file p host port path auth) _
          (add_key_file-Ends path auth)
          (λ more (pem, read, (signer, parsed, e)).
            weaken (Appends (FilesOf paths) more) _ (add_key_files p host port paths more)
              (λ all (rest, f, files). (
                AuthMethod.public_keys signer ∷ rest,
                one_more auth all _ rest (f ∙ ap (λ m. m ++ rest) e),
                (pem, signer, rest, read, parsed, refl, files),
              ))
              (add_key_files-Ends paths more))

    -- The methods of the options, the keys and the files, as many as there are.
    abbrev Gathered : DialConfig Signer → List (AuthMethod Signer) → Type 0
    Gathered cfg auth =
        (of_keys : List (AuthMethod Signer)) × (of_files : List (AuthMethod Signer)) × (auth
          ≡ cfg.auth ++ (of_keys ++ of_files))
        × KeysOf cfg.pem_keys of_keys
        × FilesOf cfg.key_files of_files

    require_auth-Ends :
        (cfg : DialConfig Signer) (auth : List (AuthMethod Signer))
        → Gathered cfg auth
        → Ends (AllMethods cfg) (require_auth p host port auth)
    unfolding as_ros
    require_auth-Ends cfg [] g = (_, refl)
    require_auth-Ends cfg (a ∷ auth) (keys, files, e, k, f) = (keys, files, e, k, f, omega arith)

    -- `buildAuth` gives the methods of the options, then one for each key with what it is parsed to, then
    -- one for each file, one at least in all, or an error of the taxonomy.
    pub build_auth-Ends :
        (cfg : DialConfig Signer) → Ends (AllMethods cfg) (build_auth p cfg host port)
    unfolding build_auth
    build_auth-Ends cfg =
        bind-Ends (Appends (KeysOf cfg.pem_keys) cfg.auth) _
          (add_pem_keys p host port cfg.pem_keys cfg.auth) _
          (add_pem_keys-Ends cfg.pem_keys cfg.auth)
          (λ pems (keys, e, k).
            bind-Ends (Gathered cfg) _ (add_key_files p host port cfg.key_files pems) _
              (weaken (Appends (FilesOf cfg.key_files) pems) _
                (add_key_files p host port cfg.key_files pems)
                (λ all (files, f, g). (
                  keys,
                  files,
                  f ∙ ap (λ m. m ++ files) e ∙ append_assoc cfg.auth keys files,
                  k,
                  g,
                ))
                (add_key_files-Ends cfg.key_files pems))
              (λ auth g. require_auth-Ends cfg auth g))
