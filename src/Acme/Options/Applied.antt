-- ===== src/Acme/Options/Applied.antt =====
-- The options that a list of options leaves behind.
use edged.Base.{
  ◌≡◌, refl, sym, true, codes, Option, none, some, List, [], ◌∷◌, ◌⊎◌, inl, inr, not, on_branches,
}
use mathlib.Core.Path.{subst}
use edged.Base.Int.{pos, ltb_ℤ}
use edged.Config.{AcmeConfig}
use edged.Acme.Options.{
  OptionError, ManagerOptions, ManagerOption, with_config, with_config_func, with_email,
  with_storage_path, with_directory_url, with_socks5_proxy, with_certificate_key_type,
  with_renew_before_days, with_check_interval_hours, with_http_timeout, with_dns_http_timeout,
  with_http_transport, with_http_client, with_recursive_nameservers, with_account_registration,
  with_terms_of_service_agreed, with_load_existing_certificates, set_http_timeout,
  set_dns_http_timeout, apply_option, apply_options, default_manager_options,
}
use edged.Acme.Options.Given.{
  or_before, reconfigured, gives_transport, gives_client, gives_http_timeout,
  gives_dns_http_timeout, gives_key_type, gives_registration, gives_agreement, gives_loading,
  gives_nameservers, Sets,
}

module _ {Transport HttpClient : Type 0} where
  unchanged : (o : ManagerOptions Transport HttpClient) → Sets [] o o
  unchanged o = record {
    cfg = refl;
    transport = refl;
    http_client = refl;
    http_timeout = refl;
    dns_http_timeout = refl;
    cert_key_type = refl;
    register_account = refl;
    terms_of_service_agreed = refl;
    load_existing_certs = refl;
    recursive_nameservers = refl;
  }

  -- The options behind one option.
  abbrev behind :
      ManagerOption Transport HttpClient
      → ManagerOptions Transport HttpClient
      → ManagerOptions Transport HttpClient
  behind opt o = record {
    cfg = reconfigured opt o.cfg;
    transport = or_before o.transport (gives_transport opt);
    http_client = or_before o.http_client (gives_client opt);
    http_timeout = or_before o.http_timeout (gives_http_timeout opt);
    dns_http_timeout = or_before o.dns_http_timeout (gives_dns_http_timeout opt);
    cert_key_type = or_before o.cert_key_type (gives_key_type opt);
    register_account = or_before o.register_account (gives_registration opt);
    terms_of_service_agreed = or_before o.terms_of_service_agreed (gives_agreement opt);
    load_existing_certs = or_before o.load_existing_certs (gives_loading opt);
    recursive_nameservers = or_before o.recursive_nameservers (gives_nameservers opt);
  }

  abbrev IsBehind :
      ManagerOption Transport HttpClient
      → ManagerOptions Transport HttpClient
      → OptionError ⊎ ManagerOptions Transport HttpClient
      → Type 0
  IsBehind opt o (inl e) = Unit
  IsBehind opt o (inr o') = o' ≡ behind opt o

  apply_option-IsBehind :
      (opt : ManagerOption Transport HttpClient) (o : ManagerOptions Transport HttpClient)
      → IsBehind opt o (apply_option Transport HttpClient opt o)
  unfolding apply_option set_http_timeout set_dns_http_timeout
  apply_option-IsBehind (with_config cfg) o = refl
  apply_option-IsBehind (with_config_func none) o = tt
  apply_option-IsBehind (with_config_func (some fn)) o = refl
  apply_option-IsBehind (with_email email) o = refl
  apply_option-IsBehind (with_storage_path path) o = refl
  apply_option-IsBehind (with_directory_url url) o = refl
  apply_option-IsBehind (with_socks5_proxy proxy) o = refl
  apply_option-IsBehind (with_certificate_key_type key_type) o = refl
  apply_option-IsBehind (with_renew_before_days days) o = refl
  apply_option-IsBehind (with_check_interval_hours hours) o = refl
  apply_option-IsBehind (with_http_timeout timeout) o =
      on_branches (IsBehind (with_http_timeout timeout) o) (not (ltb_ℤ (pos 0) timeout)) _ _
        (λ _. tt) (λ _. refl)
  apply_option-IsBehind (with_dns_http_timeout timeout) o =
      on_branches (IsBehind (with_dns_http_timeout timeout) o) (not (ltb_ℤ (pos 0) timeout)) _ _
        (λ _. tt) (λ _. refl)
  apply_option-IsBehind (with_http_transport none) o = tt
  apply_option-IsBehind (with_http_transport (some t)) o = refl
  apply_option-IsBehind (with_http_client none) o = tt
  apply_option-IsBehind (with_http_client (some c)) o = refl
  apply_option-IsBehind (with_recursive_nameservers servers) o = refl
  apply_option-IsBehind (with_account_registration enabled) o = refl
  apply_option-IsBehind (with_terms_of_service_agreed agreed) o = refl
  apply_option-IsBehind (with_load_existing_certificates enabled) o = refl

  abbrev SetsAll :
      List (Option (ManagerOption Transport HttpClient))
      → ManagerOptions Transport HttpClient
      → OptionError ⊎ ManagerOptions Transport HttpClient
      → Type 0
  SetsAll opts o (inl e) = Unit
  SetsAll opts o (inr o') = Sets opts o o'

  skip_nil :
      (opts : List (Option (ManagerOption Transport HttpClient)))
      (o : ManagerOptions Transport HttpClient)
      (r : OptionError ⊎ ManagerOptions Transport HttpClient)
      → SetsAll opts o r
      → SetsAll (none ∷ opts) o r
  skip_nil opts o (inl e) s = tt
  skip_nil opts o (inr o') s = record {
    cfg = s.cfg;
    transport = s.transport;
    http_client = s.http_client;
    http_timeout = s.http_timeout;
    dns_http_timeout = s.dns_http_timeout;
    cert_key_type = s.cert_key_type;
    register_account = s.register_account;
    terms_of_service_agreed = s.terms_of_service_agreed;
    load_existing_certs = s.load_existing_certs;
    recursive_nameservers = s.recursive_nameservers;
  }

  go_past :
      (opt : ManagerOption Transport HttpClient)
      (opts : List (Option (ManagerOption Transport HttpClient)))
      (o : ManagerOptions Transport HttpClient)
      (r : OptionError ⊎ ManagerOptions Transport HttpClient)
      → SetsAll opts (behind opt o) r
      → SetsAll (some opt ∷ opts) o r
  go_past opt opts o (inl e) s = tt
  go_past opt opts o (inr o') s = record {
    cfg = s.cfg;
    transport = s.transport;
    http_client = s.http_client;
    http_timeout = s.http_timeout;
    dns_http_timeout = s.dns_http_timeout;
    cert_key_type = s.cert_key_type;
    register_account = s.register_account;
    terms_of_service_agreed = s.terms_of_service_agreed;
    load_existing_certs = s.load_existing_certs;
    recursive_nameservers = s.recursive_nameservers;
  }

  apply_options-SetsAll :
      (opts : List (Option (ManagerOption Transport HttpClient)))
      (o : ManagerOptions Transport HttpClient)
      → SetsAll opts o (apply_options Transport HttpClient opts o)
  unfolding apply_options
  apply_options-SetsAll [] o = unchanged o
  apply_options-SetsAll (none ∷ opts) o = skip_nil opts o _ (apply_options-SetsAll opts o)
  apply_options-SetsAll (some opt ∷ opts) o =
      onward (apply_option Transport HttpClient opt o) (apply_option-IsBehind opt o)
        (apply_options-SetsAll opts (behind opt o))
    where
      onward :
          (r : OptionError ⊎ ManagerOptions Transport HttpClient)
          → IsBehind opt o r
          → SetsAll opts (behind opt o) (apply_options Transport HttpClient opts (behind opt o))
          → SetsAll
              (some opt ∷ opts)
              o
              (elim r [ inl e ↦ inl e | inr o1 ↦ apply_options Transport HttpClient opts o1 ])
      onward (inl e) is s = tt
      onward (inr o1) is s =
          subst (λ b. SetsAll (some opt ∷ opts) o (apply_options Transport HttpClient opts b))
            (sym is) (go_past opt opts o _ s)

  -- The options before any is applied.
  pub record IsDefault (zero_config : AcmeConfig) (o : ManagerOptions Transport HttpClient)
      : Type 0 where
    pub cfg : o.cfg ≡ zero_config
    pub transport : o.transport ≡ none
    pub http_client : o.http_client ≡ none
    pub http_timeout : o.http_timeout ≡ pos 45000000000
    pub dns_http_timeout : o.dns_http_timeout ≡ pos 30000000000
    pub key_type : o.cert_key_type ≡ codes "2048"
    pub registers : o.register_account ≡ true
    pub agrees : o.terms_of_service_agreed ≡ true
    pub loads : o.load_existing_certs ≡ true
    pub nameservers : o.recursive_nameservers ≡ []

  -- The list has been applied to the default options.
  pub record Applied (zero_config : AcmeConfig)
      (opts : List (Option (ManagerOption Transport HttpClient)))
      (o : ManagerOptions Transport HttpClient) : Type 0 where
    pub start : ManagerOptions Transport HttpClient
    pub default : IsDefault zero_config start
    pub sets : Sets opts start o

  pub apply_options-Applied :
      (zero_config : AcmeConfig) (opts : List (Option (ManagerOption Transport HttpClient)))
      (o : ManagerOptions Transport HttpClient)
      → apply_options Transport HttpClient opts
          (default_manager_options Transport HttpClient zero_config)
        ≡ inr o
      → Applied zero_config opts o
  unfolding default_manager_options
  apply_options-Applied zero_config opts o e =
      let start = default_manager_options Transport HttpClient zero_config in
      record {
        start = start;
        default = record {
          cfg = refl;
          transport = refl;
          http_client = refl;
          http_timeout = refl;
          dns_http_timeout = refl;
          key_type = refl;
          registers = refl;
          agrees = refl;
          loads = refl;
          nameservers = refl;
        };
        sets = subst (SetsAll opts start) e (apply_options-SetsAll opts start);
      }
