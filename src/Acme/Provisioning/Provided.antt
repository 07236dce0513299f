-- ===== src/Acme/Provisioning/Provided.antt =====
-- What `configureDNS01Provider` makes of the entries.
use edged.Base.{
  ◌≡◌, ◌≢◌, refl, sym, ◌∙◌, ◌⊎◌, inl, inr, false, Option, none, some, List, [], ◌∷◌, Bytes,
  is_empty, is_empty-eq, equal, equal_iff, normalize, on_branches, on_option, if◌then◌else◌,
}
use mathlib.Core.Bool.{false≢true}
use edged.Base.Int.{ℤ}
use edged.Config.{DnsProviderConfig, AcmeConfig}
use edged.Config.Validation.{arvancloud, cloudflare_name}
use edged.Acme.Provisioning.Nameservers.{NameserversOf, resolve-NameserversOf}
use edged.Acme.Provisioning.Settings.{
  TimedBy, ClientOf, AuthOf, override-TimedBy, cloudflare_auth-AuthOf, dns_client-ClientOf,
}
use edged.Acme.Provisioning.{
  Timings, CloudflareAuth, DnsLib, ProviderError, unsupported_provider, api_key_required,
  arvancloud_failed, cloudflare_failed, provider_not_set, override, cloudflare_auth, DnsProvider,
  arvancloud_fix, plain_cloudflare, dns_client, and_then, new_arvancloud_dns01_provider,
  new_cloudflare_dns01_provider, new_dns01_provider, new_providers, Installed,
  configure_dns01_provider, resolve_recursive_nameservers,
}

differs : (s t : Bytes) → equal s t ≡ false → s ≢ t
differs s t e same = false≢true (sym e ∙ (equal_iff s t).1 same)

module _ (lib : DnsLib) (transport : Option lib.Transport) (dns_http_timeout : ℤ) where
  open lib use {
    ArvanCloud, Cloudflare, arvancloud_defaults, cloudflare_defaults, new_arvancloud,
    new_cloudflare, sets_provider,
  }

  abbrev client_of : DnsProviderConfig → Option (lib.Transport × ℤ)
  client_of p = dns_client lib transport dns_http_timeout p.use_socks5

  abbrev arvancloud_of : DnsProviderConfig → Option ArvanCloud
  arvancloud_of p =
      let c = p.arvan_cloud in
      new_arvancloud c.api_key
        (override arvancloud_defaults c.propagation_timeout c.polling_interval c.ttl) (client_of p)

  abbrev cloudflare_of : DnsProviderConfig → Option Cloudflare
  cloudflare_of p =
      let c = p.cloudflare in
      new_cloudflare (cloudflare_auth c)
        (override cloudflare_defaults c.propagation_timeout c.polling_interval c.ttl) (client_of p)

  -- The timings and the client that the entry asks for.
  abbrev ArvancloudSettings : DnsProviderConfig → Timings → Option (lib.Transport × ℤ) → Type 0
  ArvancloudSettings p t client =
      let c = p.arvan_cloud in
      TimedBy arvancloud_defaults c.propagation_timeout c.polling_interval c.ttl t
      × ClientOf transport dns_http_timeout p.use_socks5 client

  abbrev CloudflareSettings :
      DnsProviderConfig → CloudflareAuth → Timings → Option (lib.Transport × ℤ) → Type 0
  CloudflareSettings p auth t client =
      let c = p.cloudflare in
      AuthOf c auth
      × TimedBy cloudflare_defaults c.propagation_timeout c.polling_interval c.ttl t
      × ClientOf transport dns_http_timeout p.use_socks5 client

  arvancloud-settings :
      (p : DnsProviderConfig)
      → ArvancloudSettings p
          (override arvancloud_defaults p.arvan_cloud.propagation_timeout
            p.arvan_cloud.polling_interval p.arvan_cloud.ttl)
          (client_of p)
  arvancloud-settings p = (override-TimedBy _ _ _ _, dns_client-ClientOf lib _ _ _)

  cloudflare-settings :
      (p : DnsProviderConfig)
      → CloudflareSettings p
          (cloudflare_auth p.cloudflare)
          (override cloudflare_defaults p.cloudflare.propagation_timeout
            p.cloudflare.polling_interval p.cloudflare.ttl)
          (client_of p)
  cloudflare-settings p =
      (cloudflare_auth-AuthOf p.cloudflare, override-TimedBy _ _ _ _, dns_client-ClientOf lib _ _ _)

  -- The provider that the entry's name asks for, made with the entry's settings.
  pub data ProvidedBy (p : DnsProviderConfig) : DnsProvider lib → Type 0 where
    by_arvancloud :
        (inner : ArvanCloud) (t : Timings) (client : Option (lib.Transport × ℤ))
        → normalize p.name ≡ arvancloud
        → p.arvan_cloud.api_key ≢ []
        → ArvancloudSettings p t client
        → new_arvancloud p.arvan_cloud.api_key t client ≡ some inner
        → ProvidedBy p (arvancloud_fix inner p.arvan_cloud.api_key client)
    by_cloudflare :
        (provider : Cloudflare) (auth : CloudflareAuth) (t : Timings)
        (client : Option (lib.Transport × ℤ))
        → normalize p.name ≡ cloudflare_name
        → CloudflareSettings p auth t client
        → new_cloudflare auth t client ≡ some provider
        → ProvidedBy p (plain_cloudflare provider)

  -- Why an entry has no provider.
  pub data Refuses (p : DnsProviderConfig) : ProviderError → Type 0 where
    unknown :
        normalize p.name ≢ arvancloud
        → normalize p.name ≢ cloudflare_name
        → Refuses p (unsupported_provider p.name)
    keyless :
        normalize p.name ≡ arvancloud → p.arvan_cloud.api_key ≡ [] → Refuses p api_key_required
    arvancloud_fails :
        (t : Timings) (client : Option (lib.Transport × ℤ))
        → normalize p.name ≡ arvancloud
        → ArvancloudSettings p t client
        → new_arvancloud p.arvan_cloud.api_key t client ≡ none
        → Refuses p arvancloud_failed
    cloudflare_fails :
        (auth : CloudflareAuth) (t : Timings) (client : Option (lib.Transport × ℤ))
        → normalize p.name ≡ cloudflare_name
        → CloudflareSettings p auth t client
        → new_cloudflare auth t client ≡ none
        → Refuses p cloudflare_failed

  abbrev pub Either : DnsProviderConfig → ProviderError ⊎ DnsProvider lib → Type 0
  Either p (inl e) = Refuses p e
  Either p (inr q) = ProvidedBy p q

  -- A provider for each entry, in order, or the error of the first that has none.
  pub data Provides : List DnsProviderConfig → ProviderError ⊎ List (DnsProvider lib) → Type 0 where
    no_more : Provides [] (inr [])
    one_more :
        {p : DnsProviderConfig} {providers : List DnsProviderConfig} {q : DnsProvider lib}
        {qs : List (DnsProvider lib)}
        → ProvidedBy p q
        → Provides providers (inr qs)
        → Provides (p ∷ providers) (inr (q ∷ qs))
    failing_later :
        {p : DnsProviderConfig} {providers : List DnsProviderConfig} {q : DnsProvider lib}
        {e : ProviderError}
        → ProvidedBy p q
        → Provides providers (inl e)
        → Provides (p ∷ providers) (inl e)
    failing :
        {p : DnsProviderConfig} {providers : List DnsProviderConfig} {e : ProviderError}
        → Refuses p e
        → Provides (p ∷ providers) (inl e)

  new_dns01_provider-Either :
      (p : DnsProviderConfig) → Either p (new_dns01_provider lib transport dns_http_timeout p)
  unfolding new_dns01_provider new_arvancloud_dns01_provider new_cloudflare_dns01_provider
  new_dns01_provider-Either p =
      on_branches (Either p) (equal (normalize p.name) arvancloud) _ _
        (λ e.
          let named = (equal_iff _ _).0 e in
          on_branches (Either p) (is_empty p.arvan_cloud.api_key) _ _
            (λ none. keyless named (is_empty-eq _ none))
            λ key.
              on_option (Either p) (arvancloud_of p) _ _
                (arvancloud_fails _ _ named (arvancloud-settings p))
                (λ inner made.
                  by_arvancloud inner _ _ named (present _ key) (arvancloud-settings p) made))
        λ other.
          on_branches (Either p) (equal (normalize p.name) cloudflare_name) _ _
            (λ e.
              let named = (equal_iff _ _).0 e in
              on_option (Either p) (cloudflare_of p) _ _
                (cloudflare_fails _ _ _ named (cloudflare-settings p))
                (λ q made. by_cloudflare q _ _ _ named (cloudflare-settings p) made))
            (λ neither. unknown (differs _ _ other) (differs _ _ neither))
    where
      present : (s : Bytes) → is_empty s ≡ false → s ≢ []
      present [] h e = cc
      present (c ∷ s) h e = cc

  new_providers-Provides :
      (providers : List DnsProviderConfig)
      → Provides providers (new_providers lib transport dns_http_timeout providers)
  unfolding new_providers
  new_providers-Provides [] = no_more
  new_providers-Provides (p ∷ providers) =
      both _ (new_providers lib transport dns_http_timeout providers) (new_dns01_provider-Either p)
        (new_providers-Provides providers)
    where
      both :
          (q : ProviderError ⊎ DnsProvider lib) (qs : ProviderError ⊎ List (DnsProvider lib))
          → Either p q
          → Provides providers qs
          → Provides (p ∷ providers) (and_then lib q qs)
      both (inl e) qs r b = failing r
      both (inr q) (inl e) r b = failing_later r b
      both (inr q) (inr qs) r b = one_more r b

  -- What lego is given, or why it is given nothing.
  abbrev pub IsConfigured :
      List Bytes → AcmeConfig → ProviderError ⊎ Option (Installed lib) → Type 0
  IsConfigured servers cfg (inr none) = cfg.dns_providers ≡ []
  IsConfigured servers cfg (inr (some i)) =
      (i.entries ≡ cfg.dns_providers)
      × (Provides i.entries (inr i.providers) × NameserversOf i.entries servers i.nameservers)
  IsConfigured servers cfg (inl e) =
      Provides cfg.dns_providers (inl e) ⊎ ((e ≡ provider_not_set) × (sets_provider ≡ false))

  pub configure_dns01_provider-IsConfigured :
      (recursive_nameservers : List Bytes) (cfg : AcmeConfig)
      → IsConfigured recursive_nameservers cfg
          (configure_dns01_provider lib transport dns_http_timeout recursive_nameservers cfg)
  unfolding configure_dns01_provider
  configure_dns01_provider-IsConfigured servers cfg =
      on_branches (IsConfigured servers cfg) (is_empty cfg.dns_providers) _ _ (λ e. is_empty-eq _ e)
        λ some_entry.
          onward (new_providers lib transport dns_http_timeout cfg.dns_providers)
            (new_providers-Provides cfg.dns_providers)
    where
      onward :
          (r : ProviderError ⊎ List (DnsProvider lib))
          → Provides cfg.dns_providers r
          → IsConfigured servers cfg (elim r [
            | inl e ↦ inl e
            | inr ps ↦
                if sets_provider
                then inr (
                    some (record {
                      entries = cfg.dns_providers;
                      providers = ps;
                      nameservers = resolve_recursive_nameservers cfg.dns_providers servers;
                    }))
                else inl provider_not_set
          ])
      onward (inl e) p = inl p
      onward (inr ps) p =
          on_branches (IsConfigured servers cfg) sets_provider _ _
            (λ set. (refl, (p, resolve-NameserversOf cfg.dns_providers servers)))
            (λ unset. inr (refl, unset))
