-- ===== src/Config/Validation.antt =====
-- config/config.go: the struct-level rules that the program registers with its validator.
pub mod Listener
pub mod Providers
use edged.Base.{
  ℕ, suc, ◌++◌, ◌&&◌, ◌||◌, not, Bool, true, false, Option, none, some, List, [], ◌∷◌,
  if◌then◌else◌, is_empty, Bytes, codes, equal, ltb,
}
use edged.Config.Types.{RouteConfig, ListenerConfig, DnsProviderConfig, AcmeConfig, Config}
use edged.Config.DnsMatch.{validate_glob_pattern}
use edged.Config.Domains.{https, acme_domains}

-- The field and the tag of one `sl.ReportError`; a number is the index in the field's path.
pub data Violation : Type 0 where
  domains_required_with_acme email_required_with_acme dns_provider_required : Violation
  upstream_required_without_redirect match_required : ℕ → Violation
  invalid_domain_pattern : ℕ → Bytes → Violation
  dns_api_key_required dns_credentials_required : ℕ → Violation

unfoldable pub upstream_violations : Bool → ℕ → List RouteConfig → List Violation
upstream_violations redirects i [] = []
upstream_violations redirects i (r ∷ routes) =
    let rest = upstream_violations redirects (suc i) routes in
    if is_empty r.upstream && not redirects
    then upstream_required_without_redirect i ∷ rest
    else rest

-- `listenerStructLevelValidation`
unfoldable pub listener_violations : ListenerConfig → List Violation
listener_violations l =
    (if equal l.protocol https && l.tls.use_acme && is_empty l.tls.domains
      then domains_required_with_acme ∷ []
      else [])
    ++ upstream_violations l.redirect_to_https 0 l.routes

-- The loop over the patterns stops at the first that is refused.
unfoldable pub pattern_violations : ℕ → List Bytes → List Violation
pattern_violations i [] = []
pattern_violations i (pattern ∷ patterns) = elim (validate_glob_pattern pattern) [
  | some e ↦ invalid_domain_pattern i pattern ∷ []
  | none ↦ pattern_violations i patterns
]

abbrev pub arvancloud : Bytes
arvancloud = codes "arvancloud"

abbrev pub cloudflare_name : Bytes
cloudflare_name = codes "cloudflare"

-- `validateDNSProviderCredentials`
unfoldable pub credential_violations : ℕ → DnsProviderConfig → List Violation
credential_violations i p =
    let cf = p.cloudflare in
    if equal p.name arvancloud
    then (if is_empty p.arvan_cloud.api_key then dns_api_key_required i ∷ [] else [])
    else if equal p.name cloudflare_name
    then (if is_empty cf.api_token && (is_empty cf.auth_email || is_empty cf.auth_key)
        then dns_credentials_required i ∷ []
        else [])
    else []

-- The body of the loop of `validateDNSProviders`.
unfoldable pub entry_violations : ℕ → DnsProviderConfig → List Violation
entry_violations i p =
    (if ltb 0 i && is_empty p.match then match_required i ∷ [] else [])
    ++ (pattern_violations i p.match ++ credential_violations i p)

unfoldable pub provider_violations : ℕ → List DnsProviderConfig → List Violation
provider_violations i [] = []
provider_violations i (p ∷ providers) =
    entry_violations i p ++ provider_violations (suc i) providers

-- `validateDNSProviders`
unfoldable pub dns_violations : AcmeConfig → List Violation
dns_violations acme =
    if is_empty acme.dns_providers
    then dns_provider_required ∷ []
    else provider_violations 0 acme.dns_providers

unfoldable pub uses_acme : List ListenerConfig → Bool
uses_acme [] = false
uses_acme (l ∷ listeners) = if l.tls.use_acme then true else uses_acme listeners

-- `configStructLevelValidation`
unfoldable pub config_violations : Config → List Violation
config_violations c =
    (if uses_acme c.listeners && is_empty c.acme.email then email_required_with_acme ∷ [] else [])
    ++ (if is_empty (acme_domains c) then [] else dns_violations c.acme)
