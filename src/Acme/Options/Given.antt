-- ===== src/Acme/Options/Given.antt =====
-- What a list of options sets: each field has the last value that an option of the list gives it.
use edged.Base.{◌≡◌, Option, none, some, List, [], ◌∷◌, Bool, Bytes}
use edged.Base.Int.{ℤ}
use edged.Config.{AcmeConfig}
use edged.Acme.Options.{
  ManagerOptions, ManagerOption, with_config, with_config_func, with_email, with_storage_path,
  with_directory_url, with_socks5_proxy, with_certificate_key_type, with_renew_before_days,
  with_check_interval_hours, with_http_timeout, with_dns_http_timeout, with_http_transport,
  with_http_client, with_recursive_nameservers, with_account_registration,
  with_terms_of_service_agreed, with_load_existing_certificates,
}

abbrev pub or_before {ℓ} : {A : Type ℓ} → A → Option A → A
or_before before none = before
or_before before (some a) = a

module _ {Transport HttpClient : Type 0} where
  -- The last value that the options give, or the one before them.
  abbrev pub last_given {ℓ} :
      {A : Type ℓ}
      → (ManagerOption Transport HttpClient → Option A)
      → List (Option (ManagerOption Transport HttpClient))
      → A
      → A
  last_given gives [] before = before
  last_given gives (none ∷ opts) before = last_given gives opts before
  last_given gives (some opt ∷ opts) before = last_given gives opts (or_before before (gives opt))

  -- The configuration behind an option.
  abbrev pub reconfigured : ManagerOption Transport HttpClient → AcmeConfig → AcmeConfig
  reconfigured (with_config cfg) c = cfg
  reconfigured (with_config_func (some fn)) c = fn c
  reconfigured (with_email email) c = record c { email = email }
  reconfigured (with_storage_path path) c = record c { storage_path = path }
  reconfigured (with_directory_url url) c = record c { directory_url = url }
  reconfigured (with_socks5_proxy proxy) c = record c { socks5_proxy = proxy }
  reconfigured (with_renew_before_days days) c = record c { renew_before_days = days }
  reconfigured (with_check_interval_hours hours) c = record c { check_interval_hours = hours }
  reconfigured opt c = c

  -- The configuration behind all options, one after the other.
  abbrev pub all_reconfigured :
      List (Option (ManagerOption Transport HttpClient)) → AcmeConfig → AcmeConfig
  all_reconfigured [] c = c
  all_reconfigured (none ∷ opts) c = all_reconfigured opts c
  all_reconfigured (some opt ∷ opts) c = all_reconfigured opts (reconfigured opt c)

  abbrev pub gives_transport : ManagerOption Transport HttpClient → Option (Option Transport)
  gives_transport (with_http_transport t) = some t
  gives_transport opt = none

  abbrev pub gives_client : ManagerOption Transport HttpClient → Option (Option HttpClient)
  gives_client (with_http_client c) = some c
  gives_client opt = none

  abbrev pub gives_http_timeout : ManagerOption Transport HttpClient → Option ℤ
  gives_http_timeout (with_http_timeout timeout) = some timeout
  gives_http_timeout opt = none

  abbrev pub gives_dns_http_timeout : ManagerOption Transport HttpClient → Option ℤ
  gives_dns_http_timeout (with_dns_http_timeout timeout) = some timeout
  gives_dns_http_timeout opt = none

  abbrev pub gives_key_type : ManagerOption Transport HttpClient → Option Bytes
  gives_key_type (with_certificate_key_type key_type) = some key_type
  gives_key_type opt = none

  abbrev pub gives_registration : ManagerOption Transport HttpClient → Option Bool
  gives_registration (with_account_registration enabled) = some enabled
  gives_registration opt = none

  abbrev pub gives_agreement : ManagerOption Transport HttpClient → Option Bool
  gives_agreement (with_terms_of_service_agreed agreed) = some agreed
  gives_agreement opt = none

  abbrev pub gives_loading : ManagerOption Transport HttpClient → Option Bool
  gives_loading (with_load_existing_certificates enabled) = some enabled
  gives_loading opt = none

  abbrev pub gives_nameservers : ManagerOption Transport HttpClient → Option (List Bytes)
  gives_nameservers (with_recursive_nameservers servers) = some servers
  gives_nameservers opt = none

  -- The options `o`, on which the list has been applied, are `o'` behind it.
  pub record Sets (opts : List (Option (ManagerOption Transport HttpClient)))
      (o o' : ManagerOptions Transport HttpClient) : Type 0 where
    pub cfg : o'.cfg ≡ all_reconfigured opts o.cfg
    pub transport : o'.transport ≡ last_given gives_transport opts o.transport
    pub http_client : o'.http_client ≡ last_given gives_client opts o.http_client
    pub http_timeout : o'.http_timeout ≡ last_given gives_http_timeout opts o.http_timeout
    pub dns_http_timeout :
        o'.dns_http_timeout ≡ last_given gives_dns_http_timeout opts o.dns_http_timeout
    pub cert_key_type : o'.cert_key_type ≡ last_given gives_key_type opts o.cert_key_type
    pub register_account :
        o'.register_account ≡ last_given gives_registration opts o.register_account
    pub terms_of_service_agreed :
        o'.terms_of_service_agreed ≡ last_given gives_agreement opts o.terms_of_service_agreed
    pub load_existing_certs :
        o'.load_existing_certs ≡ last_given gives_loading opts o.load_existing_certs
    pub recursive_nameservers :
        o'.recursive_nameservers ≡ last_given gives_nameservers opts o.recursive_nameservers
