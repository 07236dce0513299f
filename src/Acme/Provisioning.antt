-- ===== src/Acme/Provisioning.antt =====
-- acme/options.go: `configureDNS01Provider`, which makes a DNS-01 provider of every entry. The
-- constructors of lego are a parameter.
pub mod Settings
pub mod Nameservers
pub mod Provided
pub mod Accepted
use edged.Base.{
  ℕ, suc, ◌-◌, ◌*◌, ◌%◌, Bool, true, false, ◌&&◌, Option, none, some, List, [], ◌∷◌, ◌++◌, ◌⊎◌, inl,
  inr, if◌then◌else◌, is_empty, Bytes, codes, equal, normalize, ltb,
}
use edged.Base.Int.{ℤ, pos, negsuc, ltb_ℤ}
use edged.Config.{DnsProviderConfig, AcmeConfig, ArvanCloudConfig, CloudflareConfig}
use edged.Config.Validation.{arvancloud, cloudflare_name}
use edged.Acme.Options.{second}

-- What the configurations of both providers have in common.
pub record Timings : Type 0 where
  pub propagation_timeout : ℤ
  pub polling_interval : ℤ
  pub ttl : ℤ

pub data CloudflareAuth : Type 0 where
  by_token by_email : Bytes → Bytes → CloudflareAuth

pub record DnsLib : Type 1 where
  -- `http.Transport`, and the providers of lego
  pub Transport : Type 0
  pub ArvanCloud : Type 0
  pub Cloudflare : Type 0
  -- `NewDefaultConfig`
  pub arvancloud_defaults : Timings
  pub cloudflare_defaults : Timings
  -- `NewDNSProviderConfig`; the client is the default one or has a transport and a timeout
  pub new_arvancloud : Bytes → Timings → Option (Transport × ℤ) → Option ArvanCloud
  pub new_cloudflare : CloudflareAuth → Timings → Option (Transport × ℤ) → Option Cloudflare
  -- `SetDNS01Provider` succeeds
  pub sets_provider : Bool

pub data ProviderError : Type 0 where
  unsupported_provider : Bytes → ProviderError
  api_key_required arvancloud_failed cloudflare_failed provider_not_set : ProviderError

abbrev pub default_recursive_ns : List Bytes
default_recursive_ns = codes "8.8.8.8:53" ∷ codes "1.1.1.1:53" ∷ []

-- An int64, from its bits.
unfoldable pub wrap_64 : ℕ → ℤ
wrap_64 n =
    let bits = n % 18446744073709551616 in
    if ltb bits 9223372036854775808 then pos bits else negsuc (18446744073709551615 - bits)

-- `time.Duration(n) * time.Second`, where it is positive
unfoldable pub or_seconds : ℤ → ℤ → ℤ
or_seconds default_value (pos n) = if ltb 0 n then wrap_64 (n * second) else default_value
or_seconds default_value (negsuc n) = default_value

unfoldable pub or_ttl : ℤ → ℤ → ℤ
or_ttl default_value n = if ltb_ℤ (pos 0) n then n else default_value

unfoldable pub override : Timings → ℤ → ℤ → ℤ → Timings
override defaults propagation_timeout polling_interval ttl = record {
  propagation_timeout = or_seconds defaults.propagation_timeout propagation_timeout;
  polling_interval = or_seconds defaults.polling_interval polling_interval;
  ttl = or_ttl defaults.ttl ttl;
}

unfoldable pub resolve_recursive_nameservers : List DnsProviderConfig → List Bytes → List Bytes
resolve_recursive_nameservers [] [] = default_recursive_ns
resolve_recursive_nameservers (p ∷ providers) [] =
    if is_empty p.recursive_nameservers
    then resolve_recursive_nameservers providers []
    else p.recursive_nameservers
resolve_recursive_nameservers providers (s ∷ servers) = s ∷ servers

unfoldable pub cloudflare_auth : CloudflareConfig → CloudflareAuth
cloudflare_auth cf =
    if is_empty cf.api_token
    then by_email cf.auth_email cf.auth_key
    else by_token cf.api_token cf.zone_token

module _ (lib : DnsLib) where
  open lib use {
    Transport, ArvanCloud, Cloudflare, arvancloud_defaults, cloudflare_defaults, new_arvancloud,
    new_cloudflare, sets_provider,
  }

  -- `arvancloudFixProvider`, with its key and its client, and the provider of Cloudflare.
  pub data DnsProvider : Type 0 where
    arvancloud_fix : ArvanCloud → Bytes → Option (Transport × ℤ) → DnsProvider
    plain_cloudflare : Cloudflare → DnsProvider

  -- The client of the provider: `m.transport` is `none` for nil.
  unfoldable pub dns_client : Option Transport → ℤ → Bool → Option (Transport × ℤ)
  dns_client none dns_http_timeout use_socks5 = none
  dns_client (some transport) dns_http_timeout use_socks5 =
      if use_socks5 then some (transport, dns_http_timeout) else none

  unfoldable pub new_arvancloud_dns01_provider :
      Option Transport → ℤ → DnsProviderConfig → ProviderError ⊎ DnsProvider
  new_arvancloud_dns01_provider transport dns_http_timeout p =
      let c = p.arvan_cloud in
      let client = dns_client transport dns_http_timeout p.use_socks5 in
      if is_empty c.api_key
      then inl api_key_required
      else elim (new_arvancloud c.api_key
          (override arvancloud_defaults c.propagation_timeout c.polling_interval c.ttl) client) [
            | none ↦ inl arvancloud_failed
            | some inner ↦ inr (arvancloud_fix inner c.api_key client)
          ]

  unfoldable pub new_cloudflare_dns01_provider :
      Option Transport → ℤ → DnsProviderConfig → ProviderError ⊎ DnsProvider
  new_cloudflare_dns01_provider transport dns_http_timeout p =
      let c = p.cloudflare in
      elim (new_cloudflare (cloudflare_auth c)
        (override cloudflare_defaults c.propagation_timeout c.polling_interval c.ttl)
        (dns_client transport dns_http_timeout p.use_socks5)) [
          | none ↦ inl cloudflare_failed
          | some provider ↦ inr (plain_cloudflare provider)
        ]

  unfoldable pub new_dns01_provider :
      Option Transport → ℤ → DnsProviderConfig → ProviderError ⊎ DnsProvider
  new_dns01_provider transport dns_http_timeout p =
      if equal (normalize p.name) arvancloud
      then new_arvancloud_dns01_provider transport dns_http_timeout p
      else if equal (normalize p.name) cloudflare_name
      then new_cloudflare_dns01_provider transport dns_http_timeout p
      else inl (unsupported_provider p.name)

  abbrev pub and_then :
      ProviderError ⊎ DnsProvider
      → ProviderError ⊎ List DnsProvider
      → ProviderError ⊎ List DnsProvider
  and_then (inl e) rest = inl e
  and_then (inr p) (inl e) = inl e
  and_then (inr p) (inr ps) = inr (p ∷ ps)

  -- The loop; the list `entries` that it fills is the one that it runs over.
  unfoldable pub new_providers :
      Option Transport → ℤ → List DnsProviderConfig → ProviderError ⊎ List DnsProvider
  new_providers transport dns_http_timeout [] = inr []
  new_providers transport dns_http_timeout (p ∷ providers) =
      and_then (new_dns01_provider transport dns_http_timeout p)
        (new_providers transport dns_http_timeout providers)

  -- What is handed to lego: the entries and providers of the routed provider, and the nameservers.
  pub record Installed : Type 0 where
    pub entries : List DnsProviderConfig
    pub providers : List DnsProvider
    pub nameservers : List Bytes

  -- `none` is the return without a provider.
  unfoldable pub configure_dns01_provider :
      Option Transport → ℤ → List Bytes → AcmeConfig → ProviderError ⊎ Option Installed
  configure_dns01_provider transport dns_http_timeout recursive_nameservers cfg =
      if is_empty cfg.dns_providers
      then inr none
      else elim (new_providers transport dns_http_timeout cfg.dns_providers) [
        | inl e ↦ inl e
        | inr ps ↦
            if sets_provider
            then inr (
                some (record {
                  entries = cfg.dns_providers;
                  providers = ps;
                  nameservers =
                      resolve_recursive_nameservers cfg.dns_providers recursive_nameservers;
                }))
            else inl provider_not_set
      ]
