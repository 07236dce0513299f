-- ===== src/Acme/Creating/Assembling.antt =====
-- `NewManager`, step by step.
use edged.Base.{
  ◌≡◌, refl, true, false, not, Option, none, some, List, ◌⊎◌, inl, inr, is_empty, trim_space,
  on_branches, All, arith, codes,
}
use edged.Acme.Options.{OptionError, ManagerOption, default_manager_options, apply_options}
use edged.Acme.Options.Applied.{Applied, apply_options-Applied}
use edged.Acme.Creating.Account.{KeyOf, Keyed, load_or_create_private_key-Keyed}
use edged.Acme.Options.Checked.{IsProper, IsTimed, Kept, default_options-Kept}
use edged.Acme.Provisioning.{ProviderError, Installed, configure_dns01_provider}
use edged.Acme.Provisioning.Provided.{IsConfigured, configure_dns01_provider-IsConfigured}
use edged.Acme.Creating.{
  CreateLib, CreateError, option_refused, provider_failed, invalid_socks5_proxy, account_key_failed,
  registration_failed, User, Assembled, Options, mk_storage_dirs, user_of, register_user,
  load_or_create_private_key, transport_of, http_client_of, assemble, create, new_manager,
}
use edged.Acme.Creating.Created.{
  makes_folder, accounts_folder_of, key_path_of, HasTransport, http_client_of-HasClient, Fails,
  Returns, Transports, Accounts, transport_of-Transports, register_user-Accounts,
}

module _ (lib : CreateLib) where
  open lib use {dns, HttpClient, Key, Registration, makes_client}

  abbrev Stores : Options lib → Option CreateError → Type 0
  Stores o none =
      (makes_folder lib o (codes "accounts") ≡ true) × (makes_folder lib o (codes "certs") ≡ true)
  Stores o (some e) = Fails lib o e

  mk_storage_dirs-Stores : (o : Options lib) → Stores o (mk_storage_dirs lib o.cfg)
  unfolding mk_storage_dirs
  mk_storage_dirs-Stores o =
      on_branches (Stores o) (not (makes_folder lib o (codes "accounts"))) _ _ (λ e. ground arith)
        λ first.
          on_branches (Stores o) (not (makes_folder lib o (codes "certs"))) _ _ (λ e. ground arith)
            (λ second. (ground arith, ground arith))

  abbrev loaded_key : Options lib → Option Key
  loaded_key o = load_or_create_private_key lib (accounts_folder_of lib o) (key_path_of lib o)

  -- What `create` has done before it calls `assemble`.
  record Prepared (o : Options lib) (t : dns.Transport) (k : Key) : Type 0 where
    pub timed : IsTimed dns.Transport HttpClient o
    pub stored : is_empty (trim_space o.cfg.storage_path) ≡ false
    pub folders : Stores o none
    pub has_transport : HasTransport lib o t
    pub key : KeyOf lib (accounts_folder_of lib o) (key_path_of lib o) k

  assemble-Returns :
      (o : Options lib) (t : dns.Transport) (k : Key)
      → Prepared o t k
      → Returns lib o (assemble lib o t (user_of lib o.cfg k))
  unfolding assemble
  assemble-Returns o t k p =
      on_branches (Returns lib o)
        (not (makes_client o.cfg o.cert_key_type (http_client_of lib o t))) _ _
        (λ e. (
          t,
          http_client_of lib o t,
          p.has_transport,
          http_client_of-HasClient lib o t,
          ground arith,
        ))
        λ client.
          onward (ground arith)
            (configure_dns01_provider dns (some t) o.dns_http_timeout o.recursive_nameservers o.cfg)
            (configure_dns01_provider-IsConfigured dns (some t) o.dns_http_timeout
              o.recursive_nameservers o.cfg)
    where
      finish :
          makes_client o.cfg o.cert_key_type (http_client_of lib o t) ≡ true
          → (i : Option (Installed dns))
          → IsConfigured dns (some t) o.dns_http_timeout o.recursive_nameservers o.cfg (inr i)
          → (u : Option (User lib)) → Accounts lib o k u
          → Returns lib o (elim u [
            | none ↦ inl registration_failed
            | some registered ↦ inr (record {
              cfg = o.cfg;
              transport = t;
              user = registered;
              installed = i;
              loads_existing = o.load_existing_certs;
            })
          ])
      finish client i c none a = a
      finish client i c (some u) a = record {
        timed = p.timed;
        stored = p.stored;
        accounts_folder = p.folders.0;
        certs_folder = p.folders.1;
        account_key = k;
        key_of = p.key;
        same_config = refl;
        has_transport = p.has_transport;
        client = http_client_of lib o t;
        has_client = http_client_of-HasClient lib o t;
        client_made = client;
        has_account = a;
        provided = c;
        loads = refl;
      }

      onward :
          makes_client o.cfg o.cert_key_type (http_client_of lib o t) ≡ true
          → (r : ProviderError ⊎ Option (Installed dns))
          → IsConfigured dns (some t) o.dns_http_timeout o.recursive_nameservers o.cfg r
          → Returns lib o (elim r [
            | inl e ↦ inl (provider_failed e)
            | inr installed ↦ elim (register_user lib o (user_of lib o.cfg k)) [
              | none ↦ inl registration_failed
              | some registered ↦ inr (record {
                cfg = o.cfg;
                transport = t;
                user = registered;
                installed = installed;
                loads_existing = o.load_existing_certs;
              })
            ]
          ])
      onward client (inl e) c = (t, p.has_transport, c)
      onward client (inr i) c =
          finish client i c (register_user lib o (user_of lib o.cfg k))
            (register_user-Accounts lib o k)

  create-Returns :
      (o : Options lib) → IsTimed dns.Transport HttpClient o → Returns lib o (create lib o)
  unfolding create
  create-Returns o timed =
      on_branches (Returns lib o) (is_empty (trim_space o.cfg.storage_path)) _ _ (λ e. e)
        λ stored. stores stored (mk_storage_dirs lib o.cfg) (mk_storage_dirs-Stores o)
    where
      keyed :
          is_empty (trim_space o.cfg.storage_path) ≡ false
          → Stores o none
          → (t : dns.Transport) → HasTransport lib o t
          → Returns lib o (elim (loaded_key o) [
            | none ↦ inl account_key_failed
            | some k ↦ assemble lib o t (user_of lib o.cfg k)
          ])
      keyed stored folders t h =
          from (loaded_key o)
            (load_or_create_private_key-Keyed lib (accounts_folder_of lib o) (key_path_of lib o))
        where
          from :
              (key : Option Key)
              → Keyed lib (accounts_folder_of lib o) (key_path_of lib o) key
              → Returns lib o (elim key [
                | none ↦ inl account_key_failed
                | some k ↦ assemble lib o t (user_of lib o.cfg k)
              ])
          from none e = e
          from (some k) e = assemble-Returns o t k (record {
            timed = timed;
            stored = stored;
            folders = folders;
            has_transport = h;
            key = e;
          })

      transports :
          is_empty (trim_space o.cfg.storage_path) ≡ false
          → Stores o none
          → (t : Option dns.Transport) → Transports lib o t
          → Returns lib o (elim t [
            | none ↦ inl invalid_socks5_proxy
            | some t ↦ elim (loaded_key o) [
              | none ↦ inl account_key_failed
              | some k ↦ assemble lib o t (user_of lib o.cfg k)
            ]
          ])
      transports stored folders none h = h
      transports stored folders (some t) h = keyed stored folders t h

      stores :
          is_empty (trim_space o.cfg.storage_path) ≡ false
          → (e : Option CreateError) → Stores o e
          → Returns lib o (elim e [
            | some e ↦ inl e
            | none ↦ elim (transport_of lib o) [
              | none ↦ inl invalid_socks5_proxy
              | some t ↦ elim (loaded_key o) [
                | none ↦ inl account_key_failed
                | some k ↦ assemble lib o t (user_of lib o.cfg k)
              ]
            ]
          ])
      stores stored (some e) h = h
      stores stored none h =
          transports stored h (transport_of lib o) (transport_of-Transports lib o)

  -- A list of options is refused, or all of them are applied and `create` decides.
  pub data Concludes (opts : List (Option (ManagerOption dns.Transport HttpClient)))
      : CreateError ⊎ Assembled lib → Type 0 where
    refused :
        (e : OptionError)
        → ¬ All (IsProper dns.Transport HttpClient) opts
        → Concludes opts (inl (option_refused e))
    applied :
        (o : Options lib) {r : CreateError ⊎ Assembled lib}
        → Applied lib.zero_config opts o
        → All (IsProper dns.Transport HttpClient) opts
        → Returns lib o r
        → Concludes opts r

  -- `new_manager` refuses the options exactly when one of them is not proper. Else each field
  -- of the options has the last value that an option gives it, or its default, and the configuration
  -- is changed by one option after the other; and it returns a manager of these options: with a
  -- storage path that is not blank, both folders, the account key of the disk or a new one, a client, positive
  -- timeouts, the caller's transport or one made from the settings, the account of the disk or a new
  -- one, registered unless the options forbid it, and the DNS providers of the settings; or it returns
  -- the error of one of these steps, which has failed.
  pub new_manager-Concludes :
      (opts : List (Option (ManagerOption dns.Transport HttpClient)))
      → Concludes opts (new_manager lib opts)
  unfolding new_manager
  new_manager-Concludes opts =
      from
        (apply_options dns.Transport HttpClient opts
          (default_manager_options dns.Transport HttpClient lib.zero_config))
        refl (default_options-Kept dns.Transport HttpClient lib.zero_config opts)
    where
      from :
          (r : OptionError ⊎ Options lib)
          → apply_options dns.Transport HttpClient opts
              (default_manager_options dns.Transport HttpClient lib.zero_config)
            ≡ r
          → Kept dns.Transport HttpClient (All (IsProper dns.Transport HttpClient) opts) r
          → Concludes opts
              (elim r [ inl e ↦ inl (option_refused e) | inr options ↦ create lib options ])
      from (inl e) is n = refused e n
      from (inr o) is k =
          applied o (apply_options-Applied lib.zero_config opts o is) k.0 (create-Returns o k.1)
