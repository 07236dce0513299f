-- ===== src/Acme/Creating.antt =====
-- acme/options.go: `NewManager`, with the account of acme/user.go and the key of acme/manager.go.
-- The disk, the parsers of keys and accounts, and lego are a parameter.
pub mod Account
pub mod Created
pub mod Assembling
mod Tests
use edged.Base.{
  Bool, true, false, not, ◌&&◌, Option, none, some, List, [], ◌∷◌, ◌⊎◌, inl, inr, if◌then◌else◌,
  is_empty, Bytes, codes, trim_space,
}
use edged.Base.Int.{ℤ}
use edged.Config.{AcmeConfig}
use edged.Proxy.Router.{Url}
use edged.Acme.Options.{
  OptionError, ManagerOptions, ManagerOption, default_manager_options, apply_options,
}
use edged.Acme.Provisioning.{DnsLib, ProviderError, Installed, configure_dns01_provider}

pub record CreateLib : Type 1 where
  pub dns : DnsLib
  pub HttpClient : Type 0
  pub Key : Type 0
  pub Registration : Type 0
  pub zero_config : AcmeConfig
  -- `filepath.Join`, `os.MkdirAll` and `os.ReadFile`
  pub join_paths : List Bytes → Bytes
  pub mkdir_all : Bytes → Bool
  pub read_file : Bytes → Option Bytes
  -- `url.Parse`, and an `http.Transport` with `InsecureSkipVerify` and maybe a proxy
  pub parse_url : Bytes → Option Url
  pub http_transport : Bool → Option Url → dns.Transport
  -- `pem.Decode`, and the three parsers of its block
  pub decode_pem : Bytes → Option Bytes
  pub parse_ec : Bytes → Option Key
  pub parse_pkcs1 : Bytes → Option Key
  pub parse_pkcs8 : Bytes → Option Key
  -- a new key, its DER text, and whether it can be written to the path as PEM
  pub generate_key : Option Key
  pub marshal_key : Key → Option Bytes
  pub writes_pem : Bytes → Bytes → Bool
  -- `json.Unmarshal` of an account: the email and the registration
  pub unmarshal_user : Bytes → Option (Bytes × Option Registration)
  -- `lego.NewClient` succeeds, with the HTTP client of the options or one that has a transport and a
  -- timeout; and `Register`
  pub makes_client : AcmeConfig → Bytes → HttpClient ⊎ (dns.Transport × ℤ) → Bool
  pub register : Bool → Option Registration

-- Two of the errors come with a manager that is not complete, which the callers do not use.
pub data CreateError : Type 0 where
  option_refused : OptionError → CreateError
  provider_failed : ProviderError → CreateError
  storage_path_required storage_dir_failed certs_dir_failed invalid_socks5_proxy : CreateError
  account_key_failed client_failed registration_failed : CreateError

module _ (lib : CreateLib) where
  open lib use {
    dns, HttpClient, Key, Registration, zero_config, join_paths, mkdir_all, read_file, parse_url,
    http_transport, decode_pem, parse_ec, parse_pkcs1, parse_pkcs8, generate_key, marshal_key,
    writes_pem, unmarshal_user, makes_client, register,
  }

  pub record User : Type 0 where
    pub email : Bytes
    pub registration : Option Registration
    pub key : Key

  -- The fields that `NewManager` fills; `loads_existing` says that certificates are loaded.
  pub record Assembled : Type 0 where
    pub cfg : AcmeConfig
    pub transport : dns.Transport
    pub user : User
    pub installed : Option (Installed dns)
    pub loads_existing : Bool

  abbrev pub Options : Type 0
  Options = ManagerOptions dns.Transport HttpClient

  -- `mkStorageDirs`; `none` for success.
  unfoldable pub mk_storage_dirs : AcmeConfig → Option CreateError
  mk_storage_dirs cfg =
      if not (mkdir_all (join_paths (cfg.storage_path ∷ codes "accounts" ∷ [])))
      then some storage_dir_failed
      else if not (mkdir_all (join_paths (cfg.storage_path ∷ codes "certs" ∷ [])))
      then some certs_dir_failed
      else none

  unfoldable pub skips_verification : Option Bool → Bool
  skips_verification none = false
  skips_verification (some verify) = not verify

  unfoldable pub new_acme_transport : AcmeConfig → Option dns.Transport
  new_acme_transport cfg =
      let insecure = skips_verification cfg.verify_ssl in
      if is_empty cfg.socks5_proxy
      then some (http_transport insecure none)
      else elim (parse_url cfg.socks5_proxy) [
        | none ↦ none
        | some proxy_url ↦ some (http_transport insecure (some proxy_url))
      ]

  abbrev pub or_else : Option Key → Option Key → Option Key
  or_else (some k) later = some k
  or_else none later = later

  -- The key that stands on the disk.
  unfoldable pub stored_key : Bytes → Option Key
  stored_key path = elim (read_file path) [
    | none ↦ none
    | some text ↦ elim (decode_pem text) [
      | none ↦ none
      | some block ↦ or_else (parse_ec block) (or_else (parse_pkcs1 block) (parse_pkcs8 block))
    ]
  ]

  -- `loadOrCreatePrivateKey`; `filepath.Dir` of the path is the directory of accounts.
  unfoldable pub load_or_create_private_key : Bytes → Bytes → Option Key
  load_or_create_private_key folder path = elim (stored_key path) [
    | some k ↦ some k
    | none ↦ elim generate_key [
      | none ↦ none
      | some k ↦ elim (marshal_key k) [
        | none ↦ none
        | some der ↦ if mkdir_all folder && writes_pem path der then some k else none
      ]
    ]
  ]

  unfoldable pub load_user : Bytes → Key → Option User
  load_user path k = elim (read_file path) [
    | none ↦ none
    | some text ↦ elim (unmarshal_user text) [
      | none ↦ none
      | some (email, registration) ↦
          some (record { email = email; registration = registration; key = k })
    ]
  ]

  -- The account of the disk, or a new one.
  unfoldable pub user_of : AcmeConfig → Key → User
  user_of cfg k =
      elim (load_user (join_paths (cfg.storage_path ∷ codes "accounts" ∷ codes "user.json" ∷ []))
        k) [ some u ↦ u | none ↦ record { email = cfg.email; registration = none; key = k } ]

  -- `registerUser`, where it is called; saving the account is logged only.
  unfoldable pub register_user : Options → User → Option User
  register_user options u = elim u.registration [
    | some r ↦ some u
    | none ↦
        if not options.register_account
        then some u
        else elim (register options.terms_of_service_agreed) [
          | none ↦ none
          | some r ↦ some (record u { registration = some r })
        ]
  ]

  unfoldable pub transport_of : Options → Option dns.Transport
  transport_of options = elim options.transport [
    | some t ↦ some t
    | none ↦ new_acme_transport options.cfg
  ]

  unfoldable pub http_client_of : Options → dns.Transport → HttpClient ⊎ (dns.Transport × ℤ)
  http_client_of options t = elim options.http_client [
    | some client ↦ inl client
    | none ↦ inr (t, options.http_timeout)
  ]

  -- From the account on.
  unfoldable pub assemble : Options → dns.Transport → User → CreateError ⊎ Assembled
  assemble options t u =
      if not (makes_client options.cfg options.cert_key_type (http_client_of options t))
      then inl client_failed
      else elim (configure_dns01_provider dns (some t) options.dns_http_timeout
          options.recursive_nameservers options.cfg) [
            | inl e ↦ inl (provider_failed e)
            | inr installed ↦ elim (register_user options u) [
              | none ↦ inl registration_failed
              | some registered ↦ inr (record {
                cfg = options.cfg;
                transport = t;
                user = registered;
                installed = installed;
                loads_existing = options.load_existing_certs;
              })
            ]
          ]

  -- From the options on.
  unfoldable pub create : Options → CreateError ⊎ Assembled
  create options =
      let cfg = options.cfg in
      if is_empty (trim_space cfg.storage_path)
      then inl storage_path_required
      else elim (mk_storage_dirs cfg) [
        | some e ↦ inl e
        | none ↦ elim (transport_of options) [
          | none ↦ inl invalid_socks5_proxy
          | some t ↦
              elim (load_or_create_private_key
                (join_paths (cfg.storage_path ∷ codes "accounts" ∷ []))
                (join_paths (cfg.storage_path ∷ codes "accounts" ∷ codes "private.key" ∷ []))) [
                  | none ↦ inl account_key_failed
                  | some k ↦ assemble options t (user_of cfg k)
                ]
        ]
      ]

  unfoldable pub new_manager :
      List (Option (ManagerOption dns.Transport HttpClient)) → CreateError ⊎ Assembled
  new_manager opts =
      elim (apply_options dns.Transport HttpClient opts
        (default_manager_options dns.Transport HttpClient zero_config)) [
          | inl e ↦ inl (option_refused e)
          | inr options ↦ create options
        ]
