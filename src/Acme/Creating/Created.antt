-- ===== src/Acme/Creating/Created.antt =====
-- What `NewManager` returns.
use edged.Base.{
  ◌≡◌, ◌≢◌, ◌↔◌, is_empty-eq, refl, Bool, true, false, not, Option, none, some, [], ◌∷◌, ◌⊎◌, inl,
  inr, Bytes, is_empty, trim_space, on_branches, on_option, if◌then◌else◌, arith, codes,
}
use edged.Proxy.Router.{Url}
use edged.Acme.Options.Checked.{IsTimed}
use edged.Acme.Provisioning.Provided.{IsConfigured}
use edged.Acme.Creating.{
  CreateLib, CreateError, option_refused, provider_failed, storage_path_required,
  storage_dir_failed, certs_dir_failed, invalid_socks5_proxy, account_key_failed, client_failed,
  registration_failed, User, Assembled, Options, skips_verification, new_acme_transport, user_of,
  register_user, transport_of, http_client_of,
}
use edged.Base.Int.{ℤ}
use edged.Acme.Creating.Account.{KeyOf, NoKey, UserOf, user_path, user_of-UserOf}

module _ (lib : CreateLib) where
  open lib use {
    dns, HttpClient, Key, Registration, join_paths, mkdir_all, http_transport, parse_url,
    makes_client, register,
  }

  abbrev pub makes_folder : Options lib → Bytes → Bool
  makes_folder o name = mkdir_all (join_paths (o.cfg.storage_path ∷ name ∷ []))

  abbrev pub accounts_folder_of : Options lib → Bytes
  accounts_folder_of o = join_paths (o.cfg.storage_path ∷ codes "accounts" ∷ [])

  abbrev pub key_path_of : Options lib → Bytes
  key_path_of o = join_paths (o.cfg.storage_path ∷ codes "accounts" ∷ codes "private.key" ∷ [])

  -- The transport is the caller's, or one that skips verification exactly where the settings say so,
  -- and has a proxy exactly where they have one.
  pub data HasTransport (o : Options lib) : dns.Transport → Type 0 where
    given : (t : dns.Transport) → o.transport ≡ some t → HasTransport o t
    made_direct :
        (insecure : Bool)
        → o.transport ≡ none
        → o.cfg.socks5_proxy ≡ []
        → (insecure ≡ true) ↔ (o.cfg.verify_ssl ≡ some false)
        → HasTransport o (http_transport insecure none)
    made_proxied :
        (insecure : Bool) (url : Url)
        → o.transport ≡ none
        → o.cfg.socks5_proxy ≢ []
        → parse_url o.cfg.socks5_proxy ≡ some url
        → (insecure ≡ true) ↔ (o.cfg.verify_ssl ≡ some false)
        → HasTransport o (http_transport insecure (some url))

  -- The HTTP client is the caller's, or one that has the transport and the timeout.
  pub data HasClient (o : Options lib) (t : dns.Transport)
      : HttpClient ⊎ (dns.Transport × ℤ) → Type 0 where
    given_client : (c : HttpClient) → o.http_client ≡ some c → HasClient o t (inl c)
    made_client : o.http_client ≡ none → HasClient o t (inr (t, o.http_timeout))

  -- The account is the one that stands on the disk or a new one, and it is registered unless the
  -- options forbid that.
  pub data HasAccount (o : Options lib) (k : Key) (u : User lib) : Type 0 where
    already_registered :
        (r : Registration)
        → UserOf lib o.cfg (user_path lib o.cfg) k u
        → u.registration ≡ some r
        → HasAccount o k u
    unregistered :
        UserOf lib o.cfg (user_path lib o.cfg) k u
        → u.registration ≡ none
        → o.register_account ≡ false
        → HasAccount o k u
    newly_registered :
        (before : User lib) (r : Registration)
        → UserOf lib o.cfg (user_path lib o.cfg) k before
        → before.registration ≡ none
        → o.register_account ≡ true
        → register o.terms_of_service_agreed ≡ some r
        → u ≡ record before { registration = some r }
        → HasAccount o k u

  pub record IsCreated (o : Options lib) (m : Assembled lib) : Type 0 where
    pub timed : IsTimed dns.Transport HttpClient o
    pub stored : is_empty (trim_space o.cfg.storage_path) ≡ false
    pub accounts_folder : makes_folder o (codes "accounts") ≡ true
    pub certs_folder : makes_folder o (codes "certs") ≡ true
    pub account_key : Key
    pub key_of : KeyOf lib (accounts_folder_of o) (key_path_of o) account_key
    pub same_config : m.cfg ≡ o.cfg
    pub has_transport : HasTransport o m.transport
    pub client : HttpClient ⊎ (dns.Transport × ℤ)
    pub has_client : HasClient o m.transport client
    pub client_made : makes_client o.cfg o.cert_key_type client ≡ true
    pub has_account : HasAccount o account_key m.user
    pub provided :
        IsConfigured dns
          (some m.transport)
          o.dns_http_timeout
          o.recursive_nameservers
          o.cfg
          (inr m.installed)
    pub loads : m.loads_existing ≡ o.load_existing_certs

  -- Why there is no manager.
  abbrev pub Fails : Options lib → CreateError → Type 0
  Fails o (option_refused e) = ⊥
  Fails o storage_path_required = is_empty (trim_space o.cfg.storage_path) ≡ true
  Fails o storage_dir_failed = makes_folder o (codes "accounts") ≡ false
  Fails o certs_dir_failed = makes_folder o (codes "certs") ≡ false
  Fails o invalid_socks5_proxy =
      (o.transport ≡ none) × ((o.cfg.socks5_proxy ≢ []) × (parse_url o.cfg.socks5_proxy ≡ none))
  Fails o account_key_failed = NoKey lib (accounts_folder_of o) (key_path_of o)
  Fails o client_failed =
      (t : dns.Transport) × (client : HttpClient ⊎ (dns.Transport × ℤ)) × HasTransport o t
      × HasClient o t client
      × (makes_client o.cfg o.cert_key_type client ≡ false)
  Fails o (provider_failed e) =
      (t : dns.Transport) × HasTransport o t
      × IsConfigured dns (some t) o.dns_http_timeout o.recursive_nameservers o.cfg (inl e)
  Fails o registration_failed =
      (o.register_account ≡ true) × (register o.terms_of_service_agreed ≡ none)

  abbrev pub Returns : Options lib → CreateError ⊎ Assembled lib → Type 0
  Returns o (inl e) = Fails o e
  Returns o (inr m) = IsCreated o m

  abbrev pub Transports : Options lib → Option dns.Transport → Type 0
  Transports o none = Fails o invalid_socks5_proxy
  Transports o (some t) = HasTransport o t

  skips_verification_iff :
      (verify : Option Bool) → (skips_verification lib verify ≡ true) ↔ (verify ≡ some false)
  unfolding skips_verification
  skips_verification_iff none = (λ e. absurd (cc e), λ e. absurd (cc e))
  skips_verification_iff (some true) =
      (λ e. absurd (cc e), λ e. absurd (let b : true ≡ false = cc in cc b))
  skips_verification_iff (some false) = (λ e. refl, λ e. refl)

  pub transport_of-Transports : (o : Options lib) → Transports o (transport_of lib o)
  unfolding transport_of new_acme_transport
  transport_of-Transports o = from o.transport refl
    where
      filled : (s : Bytes) → is_empty s ≡ false → s ≢ []
      filled [] h e = cc
      filled (c ∷ s) h e = cc

      from :
          (t : Option dns.Transport)
          → o.transport ≡ t
          → Transports o (elim t [ some t ↦ some t | none ↦ new_acme_transport lib o.cfg ])
      from (some t) is = given t is
      from none is =
          on_branches (Transports o) (is_empty o.cfg.socks5_proxy) _ _
            (λ e. made_direct _ is (is_empty-eq _ e) (skips_verification_iff o.cfg.verify_ssl))
            λ e.
              on_option (Transports o) (parse_url o.cfg.socks5_proxy) _ _
                (λ n. (is, (filled _ e, n)))
                (λ url p.
                  made_proxied _ url is (filled _ e) p (skips_verification_iff o.cfg.verify_ssl))

  pub http_client_of-HasClient :
      (o : Options lib) (t : dns.Transport) → HasClient o t (http_client_of lib o t)
  unfolding http_client_of
  http_client_of-HasClient o t =
      on_option (HasClient o t) o.http_client _ _ made_client (λ c e. given_client c e)

  abbrev pub Accounts : Options lib → Key → Option (User lib) → Type 0
  Accounts o k none = Fails o registration_failed
  Accounts o k (some u) = HasAccount o k u

  pub register_user-Accounts :
      (o : Options lib) (k : Key) → Accounts o k (register_user lib o (user_of lib o.cfg k))
  unfolding register_user
  register_user-Accounts o k = from (user_of lib o.cfg k).registration refl
    where
      u : User lib
      u = user_of lib o.cfg k

      from :
          (r : Option Registration)
          → u.registration ≡ r
          → Accounts o k (elim r [
            | some r ↦ some u
            | none ↦
                if not o.register_account
                then some u
                else elim (register o.terms_of_service_agreed) [
                  | none ↦ none
                  | some r ↦ some (record u { registration = some r })
                ]
          ])
      from (some r) is = already_registered r (user_of-UserOf lib o.cfg k) is
      from none is =
          on_branches (Accounts o k) (not o.register_account) _ _
            (λ e. unregistered (user_of-UserOf lib o.cfg k) is (ground arith))
            λ e.
              on_option (Accounts o k) (register o.terms_of_service_agreed) _ _
                (λ n. (ground arith, n))
                (λ r g. newly_registered u r (user_of-UserOf lib o.cfg k) is (ground arith) g refl)
