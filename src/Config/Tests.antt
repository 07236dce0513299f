-- ===== src/Config/Tests.antt =====
-- The configuration on concrete settings.
use edged.Base.{true, ◌≡◌, refl, ◌↔◌, ◌⊎◌, some, [], ◌++◌, Bytes, codes, normalize, has_prefix}
use edged.Glob.{path_match, IsPlain, Plain}
use edged.Base.Int.{pos}
use edged.Config.Samples.{sample_config, sample_providers}
use edged.Config.DnsMatch.{
  wildcard, match_domain, select_dns_provider, select_from, matches_domain, match_globs,
  match_candidates, domain_candidates,
}
use edged.Config.DnsMatch.Literal.{match_domain-IsPlain}
use edged.Config.DnsMatch.Select.{Selected, select_dns_provider-Selected}
use edged.Config.Domains.{contains, acme_domains}
use edged.Config.Domains.Members.{Any, Served, acme_domains_iff}
use edged.Config.Defaults.{set_defaults}
use edged.Config.Defaults.Inheritance.{FilledFrom, set_defaults-FilledFrom}
use edged.Config.Validation.{config_violations}
use edged.Config.Validation.Providers.{UsesAcme, AllUsable, config_violations_iff}

abbrev own_site : Bytes
own_site = codes " Edge "

second_entry : select_dns_provider sample_providers (codes "www.example.org") ≡ pos 1
unfolding select_dns_provider select_from matches_domain match_globs match_domain normalize
    match_candidates domain_candidates has_prefix path_match
second_entry = refl

own_site-IsPlain : IsPlain (normalize own_site)
unfolding normalize
own_site-IsPlain =
    let one : Plain b'e' = (refl, refl, refl, refl) in
    let two : Plain b'd' = (refl, refl, refl, refl) in
    let three : Plain b'g' = (refl, refl, refl, refl) in (one, (two, (three, (one, tt))))

own_site-filled : ¬ (normalize own_site ≡ [])
unfolding normalize
own_site-filled e = cc

match_domain-IsPlain_example : (match_domain own_site (codes "*.EDGE") ≡ true) ↔ (
    (normalize (codes "*.EDGE") ≡ normalize own_site)
    ⊎ (normalize (codes "*.EDGE") ≡ wildcard ++ normalize own_site))
match_domain-IsPlain_example =
    match_domain-IsPlain own_site (codes "*.EDGE") own_site-IsPlain own_site-filled

select_dns_provider-Selected_example :
    Selected sample_providers
      (codes "www.example.org")
      (select_dns_provider sample_providers (codes "www.example.org"))
select_dns_provider-Selected_example =
    select_dns_provider-Selected sample_providers (codes "www.example.org")

acme_domains_iff_example :
    (contains (codes "example.org") (acme_domains sample_config) ≡ true)
    ↔ Served (codes "example.org") sample_config.listeners
acme_domains_iff_example = acme_domains_iff sample_config (codes "example.org")

set_defaults-FilledFrom_example : FilledFrom (some sample_config) (set_defaults some sample_config)
set_defaults-FilledFrom_example = set_defaults-FilledFrom some sample_config

config_violations_iff_example : (config_violations sample_config ≡ []) ↔ (
    (Any UsesAcme sample_config.listeners → ¬ (sample_config.acme.email ≡ []))
    × (¬ (acme_domains sample_config ≡ []) → AllUsable sample_config.acme.dns_providers))
config_violations_iff_example = config_violations_iff sample_config
