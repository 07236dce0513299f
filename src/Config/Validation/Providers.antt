-- ===== src/Config/Validation/Providers.antt =====
-- configStructLevelValidation: the configurations it accepts.
use edged.Base.{
  ℕ, suc, Bool, true, false, ◌≡◌, refl, ap, sym, ◌∙◌, ◌↔◌, ◌⊎◌, inl, inr, none, List, [], ◌∷◌,
  if◌then◌else◌, is_empty, Bytes, equal, equal_iff, All, arith, Option-cases,
}
use mathlib.Core.Bool.{false≢true}
use edged.Config.Types.{DnsProviderConfig, AcmeConfig, ListenerConfig, Config}
use edged.Config.DnsMatch.{validate_glob_pattern}
use edged.Config.Domains.{acme_domains}
use edged.Config.Domains.Members.{Any}
use edged.Config.Validation.{
  dns_provider_required, arvancloud, cloudflare_name, pattern_violations, credential_violations,
  entry_violations, provider_violations, dns_violations, uses_acme, config_violations,
}
use edged.Config.Validation.Listener.{no_violations, is_empty_iff}

abbrev pub ValidPattern : Bytes → Type 0
ValidPattern pattern = validate_glob_pattern pattern ≡ none

pattern_violations_iff :
    (i : ℕ) (patterns : List Bytes)
    → (pattern_violations i patterns ≡ []) ↔ All ValidPattern patterns
unfolding pattern_violations
pattern_violations_iff i [] = (λ e. tt, λ w. refl)
pattern_violations_iff i (p ∷ patterns) = elim (Option-cases (validate_glob_pattern p)) [
  | inl fine ↦ ground (arith, fine, pattern_violations_iff i patterns)
  | inr (e, bad) ↦ rw bad ((λ h. cc), (λ w. cc))
]

-- The credentials that the provider's name asks for are there.
abbrev pub HasCredentials : DnsProviderConfig → Type 0
HasCredentials p =
    ((p.name ≡ arvancloud) → ¬ (p.arvan_cloud.api_key ≡ []))
    × ((p.name ≡ cloudflare_name)
        → (¬ (p.cloudflare.api_token ≡ []))
          ⊎ ((¬ (p.cloudflare.auth_email ≡ [])) × (¬ (p.cloudflare.auth_key ≡ []))))

pub names_differ : (s : Bytes) → s ≡ arvancloud → ¬ (s ≡ cloudflare_name)
unfolding equal
names_differ s a c =
    false≢true (ap (λ t. equal t cloudflare_name) (sym a) ∙ (equal_iff s cloudflare_name).1 c)

credential_violations_iff :
    (i : ℕ) (p : DnsProviderConfig) → (credential_violations i p ≡ []) ↔ HasCredentials p
unfolding credential_violations
credential_violations_iff i p = ground (
  arith,
  equal_iff p.name arvancloud,
  equal_iff p.name cloudflare_name,
  names_differ p.name,
  is_empty_iff p.arvan_cloud.api_key,
  is_empty_iff p.cloudflare.api_token,
  is_empty_iff p.cloudflare.auth_email,
  is_empty_iff p.cloudflare.auth_key,
)

-- An entry that the rules accept; only the first may have no patterns.
abbrev pub Usable : Bool → DnsProviderConfig → Type 0
Usable first p = ((p.match ≡ []) → first ≡ true) × (All ValidPattern p.match × HasCredentials p)

entry_violations_first : (p : DnsProviderConfig) → (entry_violations 0 p ≡ []) ↔ Usable true p
unfolding entry_violations
entry_violations_first p = ground (
  arith,
  no_violations (pattern_violations 0 p.match) (credential_violations 0 p),
  pattern_violations_iff 0 p.match,
  credential_violations_iff 0 p,
)

entry_violations_later :
    (i : ℕ) (p : DnsProviderConfig) → (entry_violations (suc i) p ≡ []) ↔ Usable false p
unfolding entry_violations
entry_violations_later i p = ground (
  arith,
  no_violations (pattern_violations (suc i) p.match) (credential_violations (suc i) p),
  pattern_violations_iff (suc i) p.match,
  credential_violations_iff (suc i) p,
  is_empty_iff p.match,
)

later_violations_iff :
    (i : ℕ) (providers : List DnsProviderConfig)
    → (provider_violations (suc i) providers ≡ []) ↔ All (Usable false) providers
unfolding provider_violations
later_violations_iff i [] = (λ e. tt, λ w. refl)
later_violations_iff i (p ∷ providers) = ground (
  arith,
  no_violations (entry_violations (suc i) p) (provider_violations (suc (suc i)) providers),
  entry_violations_later i p,
  later_violations_iff (suc i) providers,
)

-- `acme.dns_providers` is not empty, and each entry is usable.
abbrev pub AllUsable : List DnsProviderConfig → Type 0
AllUsable [] = ⊥
AllUsable (p ∷ providers) = Usable true p × All (Usable false) providers

dns_violations_iff : (acme : AcmeConfig) → (dns_violations acme ≡ []) ↔ AllUsable acme.dns_providers
unfolding dns_violations
dns_violations_iff acme = go acme.dns_providers
  where
    go :
        (providers : List DnsProviderConfig)
        → ((if is_empty providers
              then dns_provider_required ∷ []
              else provider_violations 0 providers)
            ≡ [])
          ↔ AllUsable providers
    go [] = (λ e. cc, λ w. absurd w)
    go (p ∷ providers) =
        unfold provider_violations in
        ground (
          arith,
          no_violations (entry_violations 0 p) (provider_violations 1 providers),
          entry_violations_first p,
          later_violations_iff 0 providers,
        )

abbrev pub UsesAcme : ListenerConfig → Type 0
UsesAcme l = l.tls.use_acme ≡ true

uses_acme_iff :
    (listeners : List ListenerConfig) → (uses_acme listeners ≡ true) ↔ Any UsesAcme listeners
unfolding uses_acme
uses_acme_iff [] = (λ e. absurd (false≢true e), λ w. absurd w)
uses_acme_iff (l ∷ listeners) = ground (arith, uses_acme_iff listeners)

-- A configuration is accepted by the rules across its parts exactly when the ACME email is given if
-- any listener uses ACME, and, if there are domains to acquire certificates for, DNS providers are
-- configured, each with well-formed patterns and the credentials its name asks for, and each after
-- the first with a pattern.
pub config_violations_iff :
    (c : Config)
    → (config_violations c ≡ []) ↔ (
        (Any UsesAcme c.listeners → ¬ (c.acme.email ≡ []))
        × (¬ (acme_domains c ≡ []) → AllUsable c.acme.dns_providers))
unfolding config_violations
config_violations_iff c = ground (
  arith,
  uses_acme_iff c.listeners,
  is_empty_iff c.acme.email,
  is_empty_iff (acme_domains c),
  dns_violations_iff c.acme,
)
