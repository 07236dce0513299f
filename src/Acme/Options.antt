-- ===== src/Acme/Options.antt =====
-- acme/options.go: the options of the ACME manager. A transport and an HTTP client that the caller
-- passes are values of two types; an option is one of those that the package exports.
pub mod Checked
pub mod Given
pub mod Applied
use edged.Base.{
  ℕ, Bool, true, false, not, Option, none, some, List, [], ◌∷◌, ◌++◌, ◌⊎◌, inl, inr, if◌then◌else◌,
  is_empty, Bytes, codes, ◌*◌,
}
use edged.Base.Int.{ℤ, pos, ltb_ℤ}
use edged.Config.{AcmeConfig}

abbrev pub second : ℕ
second = 1000000000

abbrev pub default_http_timeout : ℤ
default_http_timeout = pos (45 * second)

abbrev pub default_dns_http_timeout : ℤ
default_dns_http_timeout = pos (30 * second)

abbrev pub rsa_2048 : Bytes
rsa_2048 = codes "2048"

pub data OptionError : Type 0 where
  nil_mutation_function nil_http_transport nil_http_client http_timeout_not_positive
        dns_http_timeout_not_positive :
      OptionError

module _ (Transport : Type 0) (HttpClient : Type 0) where
  pub record ManagerOptions : Type 0 where
    pub cfg : AcmeConfig
    pub transport : Option Transport
    pub http_client : Option HttpClient
    pub http_timeout : ℤ
    pub dns_http_timeout : ℤ
    pub cert_key_type : Bytes
    pub register_account : Bool
    pub terms_of_service_agreed : Bool
    pub load_existing_certs : Bool
    pub recursive_nameservers : List Bytes

  -- The options; `none` is a nil argument.
  pub data ManagerOption : Type 0 where
    with_config : AcmeConfig → ManagerOption
    with_config_func : Option (AcmeConfig → AcmeConfig) → ManagerOption
    with_email with_storage_path with_directory_url with_socks5_proxy with_certificate_key_type :
        Bytes → ManagerOption
    with_renew_before_days with_check_interval_hours with_http_timeout with_dns_http_timeout :
        ℤ → ManagerOption
    with_http_transport : Option Transport → ManagerOption
    with_http_client : Option HttpClient → ManagerOption
    with_recursive_nameservers : List Bytes → ManagerOption
    with_account_registration with_terms_of_service_agreed with_load_existing_certificates :
        Bool → ManagerOption

  unfoldable pub default_manager_options : AcmeConfig → ManagerOptions
  default_manager_options zero_config = record {
    cfg = zero_config;
    transport = none;
    http_client = none;
    http_timeout = default_http_timeout;
    dns_http_timeout = default_dns_http_timeout;
    cert_key_type = rsa_2048;
    register_account = true;
    terms_of_service_agreed = true;
    load_existing_certs = true;
    recursive_nameservers = [];
  }

  abbrev pub set_config : (AcmeConfig → AcmeConfig) → ManagerOptions → OptionError ⊎ ManagerOptions
  set_config fn o = inr (record o { cfg = fn o.cfg })

  unfoldable pub set_http_timeout : ℤ → ManagerOptions → OptionError ⊎ ManagerOptions
  set_http_timeout timeout o =
      if not (ltb_ℤ (pos 0) timeout)
      then inl http_timeout_not_positive
      else inr (record o { http_timeout = timeout })

  unfoldable pub set_dns_http_timeout : ℤ → ManagerOptions → OptionError ⊎ ManagerOptions
  set_dns_http_timeout timeout o =
      if not (ltb_ℤ (pos 0) timeout)
      then inl dns_http_timeout_not_positive
      else inr (record o { dns_http_timeout = timeout })

  -- A call of the option.
  unfoldable pub apply_option : ManagerOption → ManagerOptions → OptionError ⊎ ManagerOptions
  apply_option (with_config cfg) o = set_config (λ c. cfg) o
  apply_option (with_config_func none) o = inl nil_mutation_function
  apply_option (with_config_func (some fn)) o = set_config fn o
  apply_option (with_email email) o = set_config (λ c. record c { email = email }) o
  apply_option (with_storage_path path) o = set_config (λ c. record c { storage_path = path }) o
  apply_option (with_directory_url url) o = set_config (λ c. record c { directory_url = url }) o
  apply_option (with_socks5_proxy proxy) o = set_config (λ c. record c { socks5_proxy = proxy }) o
  apply_option (with_renew_before_days days) o =
      set_config (λ c. record c { renew_before_days = days }) o
  apply_option (with_check_interval_hours hours) o =
      set_config (λ c. record c { check_interval_hours = hours }) o
  apply_option (with_http_transport none) o = inl nil_http_transport
  apply_option (with_http_transport (some t)) o = inr (record o { transport = some t })
  apply_option (with_http_client none) o = inl nil_http_client
  apply_option (with_http_client (some c)) o = inr (record o { http_client = some c })
  apply_option (with_http_timeout timeout) o = set_http_timeout timeout o
  apply_option (with_dns_http_timeout timeout) o = set_dns_http_timeout timeout o
  apply_option (with_certificate_key_type key_type) o = inr (record o { cert_key_type = key_type })
  apply_option (with_recursive_nameservers servers) o =
      inr (record o { recursive_nameservers = servers })
  apply_option (with_account_registration enabled) o = inr (record o { register_account = enabled })
  apply_option (with_terms_of_service_agreed agreed) o =
      inr (record o { terms_of_service_agreed = agreed })
  apply_option (with_load_existing_certificates enabled) o =
      inr (record o { load_existing_certs = enabled })

  -- The loop of `NewManager`; a nil option is passed over.
  unfoldable pub apply_options :
      List (Option ManagerOption) → ManagerOptions → OptionError ⊎ ManagerOptions
  apply_options [] o = inr o
  apply_options (none ∷ opts) o = apply_options opts o
  apply_options (some opt ∷ opts) o = elim (apply_option opt o) [
    | inl e ↦ inl e
    | inr o1 ↦ apply_options opts o1
  ]

  -- The options that `NewManagerFromConfig` passes on.
  abbrev pub options_from_config :
      AcmeConfig → List (Option ManagerOption) → List (Option ManagerOption)
  options_from_config cfg opts = some (with_config cfg) ∷ opts
