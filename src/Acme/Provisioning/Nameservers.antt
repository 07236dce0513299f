-- ===== src/Acme/Provisioning/Nameservers.antt =====
-- Which nameservers are asked about a challenge.
use edged.Base.{◌≡◌, ◌≢◌, false, List, [], ◌∷◌, Bytes, is_empty, is_empty-eq, on_branches}
use edged.Config.{DnsProviderConfig}
use edged.Acme.Provisioning.{resolve_recursive_nameservers, default_recursive_ns}

-- The nameservers are the caller's, if there are any, else those of the first entry that has some,
-- else the public ones.
pub data NameserversOf : List DnsProviderConfig → List Bytes → List Bytes → Type 0 where
  by_caller :
      {providers : List DnsProviderConfig} {servers : List Bytes}
      → servers ≢ []
      → NameserversOf providers servers servers
  by_entry :
      {p : DnsProviderConfig} {providers : List DnsProviderConfig}
      → p.recursive_nameservers ≢ []
      → NameserversOf (p ∷ providers) [] p.recursive_nameservers
  by_later :
      {p : DnsProviderConfig} {providers : List DnsProviderConfig} {servers : List Bytes}
      → p.recursive_nameservers ≡ []
      → NameserversOf providers [] servers
      → NameserversOf (p ∷ providers) [] servers
  by_default : NameserversOf [] [] default_recursive_ns

filled : (s : List Bytes) → is_empty s ≡ false → s ≢ []
filled [] h e = cc
filled (c ∷ s) h e = cc

pub resolve-NameserversOf :
    (providers : List DnsProviderConfig) (servers : List Bytes)
    → NameserversOf providers servers (resolve_recursive_nameservers providers servers)
unfolding resolve_recursive_nameservers
resolve-NameserversOf [] [] = by_default
resolve-NameserversOf (p ∷ providers) [] =
    on_branches (NameserversOf (p ∷ providers) []) (is_empty p.recursive_nameservers) _ _
      (λ e. by_later (is_empty-eq _ e) (resolve-NameserversOf providers []))
      (λ e. by_entry (filled _ e))
resolve-NameserversOf [] (s ∷ servers) = by_caller (λ e. cc)
resolve-NameserversOf (p ∷ providers) (s ∷ servers) = by_caller (λ e. cc)
