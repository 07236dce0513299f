-- ===== src/Acme/Creating/Tests.antt =====
-- The manager and its providers on a concrete configuration.
use edged.Base.{
  ℕ, suc, ◌≡◌, ◌≢◌, refl, sym, ◌∙◌, ap, Bool, true, false, Option, none, some, List, [], ◌∷◌, ◌++◌,
  ◌⊎◌, inl, inr, Bytes, codes, is_empty, All, join,
}
use mathlib.Core.Bool.{false≢true}
use edged.Base.Int.{pos}
use edged.Config.{Config}
use edged.Config.Samples.{sample_config, sample_listener, sample_provider}
use edged.Config.Domains.{
  acme_domains, collect, add_domains, add_key, contains, sort, insert_sorted, bytes_leb,
}
use edged.Config.Validation.{
  config_violations, dns_violations, provider_violations, entry_violations, pattern_violations,
  credential_violations, uses_acme,
}
use edged.Acme.Samples.{lego, fresh}
use edged.Acme.Options.{ManagerOption, with_config, with_http_timeout}
use edged.Acme.Provisioning.{configure_dns01_provider}
use edged.Acme.Provisioning.Accepted.{IsServed, configure_dns01_provider-accepted}
use edged.Acme.Creating.{new_manager}
use edged.Acme.Creating.Assembling.{Concludes, new_manager-Concludes}
use edged.Acme.ArvanCloud.{Request, ArvanLib, Sent, present}
use edged.Acme.ArvanCloud.Cleaned.{Cleans, present-Cleans}

abbrev secured : Config
secured = record sample_config {
  listeners = record sample_listener { protocol = codes "https" } ∷ [];
  acme = record sample_config.acme { dns_providers = sample_provider [] (codes "arvancloud") ∷ [] };
}

secured-valid : config_violations secured ≡ []
unfolding config_violations dns_violations provider_violations entry_violations pattern_violations
    credential_violations uses_acme acme_domains collect add_domains add_key contains sort
    insert_sorted bytes_leb edged.Base.normalize edged.Base.equal
secured-valid = refl

some_domain : is_empty (acme_domains secured) ≡ false
unfolding acme_domains collect add_domains add_key contains sort insert_sorted bytes_leb
    edged.Base.normalize edged.Base.equal
some_domain = refl

domains_filled : acme_domains secured ≢ []
domains_filled e = false≢true (sym some_domain ∙ ap is_empty e)

configure_dns01_provider-accepted_example :
    IsServed (configure_dns01_provider lego (some 7) (pos 30) [] secured.acme)
configure_dns01_provider-accepted_example =
    configure_dns01_provider-accepted lego (some 7) (pos 30) [] secured secured-valid domains_filled
      (inl refl, tt)

abbrev options : List (Option (ManagerOption ℕ ℕ))
options = some (with_config secured.acme) ∷ none ∷ some (with_http_timeout (pos 5)) ∷ []

new_manager-Concludes_example : Concludes fresh options (new_manager fresh options)
new_manager-Concludes_example = new_manager-Concludes fresh options

-- The zone has two stale records and another one; the world counts the requests.
abbrev cdn : ArvanLib
cdn = record {
  World = ℕ;
  Error = Bytes;
  send = λ r w. (
    some (record {
      status = 200;
      result = some (
          record { id = codes "1"; name = codes "_acme-challenge"; kind = codes "txt" }
          ∷ record { id = codes "2"; name = codes "_acme-challenge"; kind = codes "a" }
          ∷ record { id = codes "3"; name = codes "acme-challenge"; kind = codes "txt" }
          ∷ []);
    }),
    suc w,
  );
  effective_fqdn = λ domain key_auth. codes "_acme-challenge." ++ domain;
  find_zone_by_fqdn = λ fqdn w. (some (codes "example.org."), w);
  un_fqdn = λ zone. codes "example.org";
  extract_sub_domain = λ fqdn zone. some (codes "_acme-challenge");
  inner_present = λ domain token key_auth w. (none, w);
  inner_clean_up = λ domain token key_auth w. (none, w);
}

abbrev unsent : Sent cdn
unsent = record { requests = []; world = 0 }

present-Cleans_example :
    (reqs : List Request) × (w : ℕ) × Cleans cdn
      (codes "key")
      (codes "_acme-challenge.example.org.")
      0
      reqs
      w
    × (present cdn (codes "key") (codes "example.org.") (codes "t") (codes "k") unsent
        ≡ (none, record { requests = reqs; world = w }))
present-Cleans_example =
    present-Cleans cdn (codes "key") (codes "example.org.") (codes "t") (codes "k") unsent
