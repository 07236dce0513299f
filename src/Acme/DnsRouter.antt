-- ===== src/Acme/DnsRouter.antt =====
-- acme/dns_router.go: the provider that answers the DNS-01 challenges of a domain. The providers
-- are lego's, a parameter: what each does to the world and the settings it reports.
pub mod Route
pub mod Timing
use edged.Base.{
  ℕ, ◌+◌, ◌&&◌, ◌||◌, ◌==◌, Bool, true, false, Option, none, some, List, [], ◌∷◌, if◌then◌else◌,
  get_elem?, Bytes, normalize,
}
use edged.Base.Int.{ℤ, pos, negsuc, ltb_ℤ}
use edged.Config.{DnsProviderConfig}
use edged.Config.DnsMatch.{select_dns_provider}

-- What the router uses of `challenge.Provider`; `settings` is `none` for a provider that is no
-- `challenge.ProviderTimeout`.
pub record Challenge : Type 1 where
  pub Provider : Type 0
  pub World : Type 0
  pub Error : Type 0
  pub present : Provider → Bytes → Bytes → Bytes → World → Option Error × World
  pub clean_up : Provider → Bytes → Bytes → Bytes → World → Option Error × World
  pub settings : Provider → Option (ℤ × ℤ)
  pub default_propagation_timeout : ℤ
  pub default_polling_interval : ℤ

module _ (lib : Challenge) where
  open lib use {
    Provider, World, Error, present, clean_up, settings, default_propagation_timeout,
    default_polling_interval,
  }

  pub record RoutedDnsProvider : Type 0 where
    pub entries : List DnsProviderConfig
    pub providers : List Provider

  pub data ChallengeError : Type 0 where
    no_provider : Bytes → ChallengeError
    provider_error : Error → ChallengeError

  -- An index out of range is the error.
  unfoldable pub route : RoutedDnsProvider → Bytes → Option Provider
  route r domain = elim (select_dns_provider r.entries (normalize domain)) [
    | negsuc n ↦ none
    | pos i ↦ get_elem? r.providers i
  ]

  abbrev pub wrap : Option Error × World → Option ChallengeError × World
  wrap (none, w) = (none, w)
  wrap (some e, w) = (some (provider_error e), w)

  unfoldable pub present_routed :
      RoutedDnsProvider → Bytes → Bytes → Bytes → World → Option ChallengeError × World
  present_routed r domain token key_auth w = elim (route r domain) [
    | none ↦ (some (no_provider domain), w)
    | some provider ↦ wrap (present provider domain token key_auth w)
  ]

  unfoldable pub clean_up_routed :
      RoutedDnsProvider → Bytes → Bytes → Bytes → World → Option ChallengeError × World
  clean_up_routed r domain token key_auth w = elim (route r domain) [
    | none ↦ (some (no_provider domain), w)
    | some provider ↦ wrap (clean_up provider domain token key_auth w)
  ]

  unfoldable pub longer_timeout : ℤ → ℤ → ℤ
  longer_timeout provider_timeout timeout =
      if ltb_ℤ timeout provider_timeout then provider_timeout else timeout

  abbrev pub is_zero : ℤ → Bool
  is_zero (pos n) = n == 0
  is_zero (negsuc n) = false

  unfoldable pub shorter_interval : ℤ → ℤ → ℤ
  shorter_interval provider_interval interval =
      if ltb_ℤ (pos 0) provider_interval && (is_zero interval || ltb_ℤ provider_interval interval)
      then provider_interval
      else interval

  -- The loop of `Timeout`.
  unfoldable pub aggregate : List Provider → ℤ × ℤ → ℤ × ℤ
  aggregate [] acc = acc
  aggregate (p ∷ providers) (timeout, interval) = aggregate providers (elim (settings p) [
    | none ↦ (timeout, interval)
    | some (t, i) ↦ (longer_timeout t timeout, shorter_interval i interval)
  ])

  unfoldable pub or_default : ℤ → ℤ → ℤ
  or_default default_value n = if ltb_ℤ (pos 0) n then n else default_value

  unfoldable pub timeouts : RoutedDnsProvider → ℤ × ℤ
  timeouts r =
      let (timeout, interval) = aggregate r.providers (pos 0, pos 0) in
      (or_default default_propagation_timeout timeout, or_default default_polling_interval interval)
