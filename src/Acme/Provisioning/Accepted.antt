-- ===== src/Acme/Provisioning/Accepted.antt =====
-- The entries of a configuration that is accepted.
use edged.Base.{
  ◌≡◌, ◌≢◌, refl, sym, ◌∙◌, ap, false, ◌⊎◌, inl, inr, Option, none, some, List, [], ◌∷◌, Bytes,
  normalize, All,
}
use mathlib.Core.Path.{subst}
use edged.Base.Int.{ℤ}
use edged.Config.{DnsProviderConfig, Config}
use edged.Config.Domains.{acme_domains}
use edged.Config.Validation.{arvancloud, cloudflare_name, config_violations}
use edged.Config.Validation.Providers.{
  names_differ, HasCredentials, Usable, AllUsable, config_violations_iff,
}
use edged.Acme.Provisioning.{
  DnsLib, ProviderError, unsupported_provider, api_key_required, arvancloud_failed,
  cloudflare_failed, provider_not_set, Installed, configure_dns01_provider,
}
use edged.Acme.Provisioning.Provided.{
  Refuses, unknown, keyless, arvancloud_fails, cloudflare_fails, Provides, failing_later, failing,
  IsConfigured, configure_dns01_provider-IsConfigured,
}

-- The rule of the tag `oneof=arvancloud cloudflare`.
abbrev pub Named : DnsProviderConfig → Type 0
Named p = (p.name ≡ arvancloud) ⊎ (p.name ≡ cloudflare_name)

-- An error of the packages behind the providers.
abbrev pub IsForeign : ProviderError → Type 0
IsForeign (unsupported_provider name) = ⊥
IsForeign api_key_required = ⊥
IsForeign arvancloud_failed = Unit
IsForeign cloudflare_failed = Unit
IsForeign provider_not_set = Unit

arvancloud_plain : normalize arvancloud ≡ arvancloud
unfolding normalize
arvancloud_plain = refl

cloudflare_plain : normalize cloudflare_name ≡ cloudflare_name
unfolding normalize
cloudflare_plain = refl

module _ (lib : DnsLib) (transport : Option lib.Transport) (dns_http_timeout : ℤ) where
  Refuses-IsForeign :
      (p : DnsProviderConfig) {e : ProviderError}
      → Named p
      → HasCredentials p
      → Refuses lib transport dns_http_timeout p e
      → IsForeign e
  Refuses-IsForeign p (inl n) c (unknown a b) = a (ap normalize n ∙ arvancloud_plain)
  Refuses-IsForeign p (inr n) c (unknown a b) = b (ap normalize n ∙ cloudflare_plain)
  Refuses-IsForeign p (inl n) c (keyless a k) = c.0 n k
  Refuses-IsForeign p (inr n) c (keyless a k) =
      names_differ arvancloud refl (sym a ∙ ap normalize n ∙ cloudflare_plain)
  Refuses-IsForeign p n c (arvancloud_fails t client named settings failed) = tt
  Refuses-IsForeign p n c (cloudflare_fails auth t client named settings failed) = tt

  Provides-IsForeign :
      (providers : List DnsProviderConfig) {e : ProviderError}
      → All Named providers
      → All HasCredentials providers
      → Provides lib transport dns_http_timeout providers (inl e)
      → IsForeign e
  Provides-IsForeign [] n c x = elim x [ ]
  Provides-IsForeign (p ∷ providers) n c (failing_later q rest) =
      Provides-IsForeign providers n.1 c.1 rest
  Provides-IsForeign (p ∷ providers) n c (failing r) = Refuses-IsForeign p n.0 c.0 r

credentials_later :
    (providers : List DnsProviderConfig)
    → All (Usable false) providers
    → All HasCredentials providers
credentials_later [] u = tt
credentials_later (p ∷ providers) u = (u.0.1.1, credentials_later providers u.1)

credentials_all :
    (providers : List DnsProviderConfig) → AllUsable providers → All HasCredentials providers
credentials_all [] u = absurd u
credentials_all (p ∷ providers) u = (u.0.1.1, credentials_later providers u.1)

some_provider : (providers : List DnsProviderConfig) → AllUsable providers → providers ≢ []
some_provider [] u e = absurd u
some_provider (p ∷ providers) u e = cc

-- A provider is installed, or the packages behind it are at fault.
abbrev pub IsServed : {A : Type 0} → ProviderError ⊎ Option A → Type 0
IsServed (inl e) = IsForeign e
IsServed (inr none) = ⊥
IsServed (inr (some i)) = Unit

-- For a configuration that the rules across its parts accept, with domains to acquire certificates for
-- and with a name from the two supported ones in each DNS provider, `configure_dns01_provider`
-- installs a provider, unless lego fails: it never misses a
-- key, finds a name unsupported or returns without a provider.
pub configure_dns01_provider-accepted :
    (lib : DnsLib) (transport : Option lib.Transport) (dns_http_timeout : ℤ) (servers : List Bytes)
    (c : Config)
    → config_violations c ≡ []
    → acme_domains c ≢ []
    → All Named c.acme.dns_providers
    → IsServed (configure_dns01_provider lib transport dns_http_timeout servers c.acme)
configure_dns01_provider-accepted lib transport timeout servers c valid some_domain named =
    served (configure_dns01_provider lib transport timeout servers c.acme)
      (configure_dns01_provider-IsConfigured lib transport timeout servers c.acme)
  where
    usable : AllUsable c.acme.dns_providers
    usable = ((config_violations_iff c).0 valid).1 some_domain

    served :
        (r : ProviderError ⊎ Option (Installed lib))
        → IsConfigured lib transport timeout servers c.acme r
        → IsServed r
    served (inl e) (inl p) =
        Provides-IsForeign lib transport timeout c.acme.dns_providers named
          (credentials_all _ usable) p
    served (inl e) (inr w) = subst IsForeign (sym w.0) tt
    served (inr none) e = some_provider _ usable e
    served (inr (some i)) w = tt
