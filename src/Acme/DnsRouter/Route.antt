-- ===== src/Acme/DnsRouter/Route.antt =====
-- Which provider a domain is routed to.
use edged.Base.{
  ◌≡◌, refl, ap, true, Option, none, some, List, [], ◌∷◌, ◌++◌, map, length, get_elem?, Bytes,
  normalize, All,
}
use edged.Base.Int.{ℤ, pos, negsuc}
use edged.Config.{DnsProviderConfig}
use edged.Config.DnsMatch.{matches_domain, select_dns_provider}
use edged.Config.DnsMatch.Select.{
  Misses, Selected, not_configured, first_match, default_entry, select_dns_provider-Selected,
}
use edged.Acme.DnsRouter
use edged.Acme.DnsRouter.{Challenge}

abbrev pub Entry : Type 0 → Type 0
Entry P = DnsProviderConfig × P

module _ {P : Type 0} where
  abbrev pub config_of : Entry P → DnsProviderConfig
  config_of e = e.0

  abbrev pub provider_of : Entry P → P
  provider_of e = e.1

  -- The provider of a domain, by the entries with their providers: none is configured, or it is
  -- that of the first entry that matches, or the first one where no entry does.
  pub data Routed (pairs : List (Entry P)) (domain : Bytes) : Option P → Type 0 where
    no_entry : pairs ≡ [] → Routed pairs domain none
    first_entry :
        (before after : List (Entry P)) (e : DnsProviderConfig) (p : P)
        → pairs ≡ before ++ (e, p) ∷ after
        → matches_domain e domain ≡ true
        → All (Misses domain) (map config_of before)
        → Routed pairs domain (some p)
    fallback :
        (e : DnsProviderConfig) (p : P) (others : List (Entry P))
        → pairs ≡ (e, p) ∷ others
        → All (Misses domain) (map config_of pairs)
        → Routed pairs domain (some p)

  -- A split of the entries is one of the pairs, at the same place.
  record Split (pairs : List (Entry P)) (before : List DnsProviderConfig) (e : DnsProviderConfig)
      : Type 0 where
    front : List (Entry P)
    back : List (Entry P)
    provider : P
    splits : pairs ≡ front ++ (e, provider) ∷ back
    configs : map config_of front ≡ before
    found : get_elem? (map provider_of pairs) (length before) ≡ some provider

  pair_at :
      (pairs : List (Entry P)) (before after : List DnsProviderConfig) (e : DnsProviderConfig)
      → map config_of pairs ≡ before ++ e ∷ after
      → Split pairs before e
  pair_at [] [] after e h = absurd (cc h)
  pair_at [] (b ∷ before) after e h = absurd (cc h)
  pair_at ((c, p) ∷ pairs) [] after e h = record {
    front = [];
    back = pairs;
    provider = p;
    splits = ap (λ x. (x, p) ∷ pairs) (cc h);
    configs = refl;
    found = refl;
  }
  pair_at ((c, p) ∷ pairs) (b ∷ before) after e h =
      let rest = pair_at pairs before after e (cc h) in
      let same : c ≡ b = cc h in
      record {
        front = (c, p) ∷ rest.front;
        back = rest.back;
        provider = rest.provider;
        splits = ap (◌∷◌ (c, p)) rest.splits;
        configs = rw same (ap (◌∷◌ b) rest.configs);
        found = rest.found;
      }

module _ (lib : Challenge) where
  open lib use {Provider}

  Selected-Routed :
      (pairs : List (Entry Provider)) (domain : Bytes) (z : ℤ)
      → Selected (map config_of pairs) domain z
      → Routed pairs domain
          (elim z [ negsuc n ↦ none | pos i ↦ get_elem? (map provider_of pairs) i ])
  Selected-Routed [] domain z (not_configured e) = no_entry refl
  Selected-Routed (x ∷ pairs) domain z (not_configured e) = absurd (cc e)
  Selected-Routed pairs domain z (first_match before after e split hit passed) =
      let s = pair_at pairs before after e split in
      rw s.found (first_entry s.front s.back e s.provider s.splits hit (rw s.configs passed))
  Selected-Routed [] domain z (default_entry e others split passed) = absurd (cc split)
  Selected-Routed ((c, p) ∷ pairs) domain z (default_entry e others split passed) =
      fallback c p pairs refl passed

  -- Where the router has one provider for each entry, a domain is routed to the provider of the
  -- first entry that matches it, lowercased and trimmed, to the first provider where no entry
  -- matches, and to none exactly when there are no entries.
  pub route-Routed :
      (pairs : List (Entry Provider)) (domain : Bytes)
      → Routed pairs (normalize domain) (
          DnsRouter.route lib
            (record { entries = map config_of pairs; providers = map provider_of pairs })
            domain)
  unfolding DnsRouter.route
  route-Routed pairs domain =
      Selected-Routed pairs (normalize domain)
        (select_dns_provider (map config_of pairs) (normalize domain))
        (select_dns_provider-Selected (map config_of pairs) (normalize domain))
