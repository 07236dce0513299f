-- ===== src/Config/DnsMatch/Select.antt =====
-- SelectDNSProvider: the first entry that matches, or the default one.
use edged.Base.{
  ℕ, suc, ◌+◌, true, false, ◌≡◌, refl, ap, List, [], ◌∷◌, ◌++◌, length, Bytes, All, Bool-cases,
  arith, inl, inr,
}
use edged.Base.Int.{ℤ, pos, negsuc}
use edged.Config.Types.{DnsProviderConfig}
use edged.Config.DnsMatch.{matches_domain, select_from, select_dns_provider}

abbrev pub Misses : Bytes → DnsProviderConfig → Type 0
Misses domain p = matches_domain p domain ≡ false

-- What an index says of the entries of `acme.dns_providers`.
pub data Selected (providers : List DnsProviderConfig) (domain : Bytes) : ℤ → Type 0 where
  not_configured : providers ≡ [] → Selected providers domain (negsuc 0)
  first_match :
      (before after : List DnsProviderConfig) (p : DnsProviderConfig)
      → providers ≡ before ++ p ∷ after
      → matches_domain p domain ≡ true
      → All (Misses domain) before
      → Selected providers domain (pos (length before))
  default_entry :
      (p : DnsProviderConfig) (others : List DnsProviderConfig)
      → providers ≡ p ∷ others
      → All (Misses domain) providers
      → Selected providers domain (pos 0)

data Walked (i : ℕ) (providers : List DnsProviderConfig) (domain : Bytes) : ℤ → Type 0 where
  hit :
      (n : ℕ) (before after : List DnsProviderConfig) (p : DnsProviderConfig)
      → n ≡ i + length before
      → providers ≡ before ++ p ∷ after
      → matches_domain p domain ≡ true
      → All (Misses domain) before
      → Walked i providers domain (pos n)
  missed : All (Misses domain) providers → Walked i providers domain (pos 0)

Walked-cons :
    (i : ℕ) (p : DnsProviderConfig) (providers : List DnsProviderConfig) (domain : Bytes) (z : ℤ)
    → Misses domain p
    → Walked (suc i) providers domain z
    → Walked i (p ∷ providers) domain z
Walked-cons i p providers domain z m (hit n before after q at e h none_before) =
    hit n (p ∷ before) after q (omega arith) (ap (◌∷◌ p) e) h (m, none_before)
Walked-cons i p providers domain z m (missed n) = missed (m, n)

select_from-Walked :
    (i : ℕ) (providers : List DnsProviderConfig) (domain : Bytes)
    → Walked i providers domain (select_from i providers domain)
unfolding select_from
select_from-Walked i [] domain = missed tt
select_from-Walked i (p ∷ providers) domain = elim (Bool-cases (matches_domain p domain)) [
  | inl takes ↦ rw takes (hit i [] providers p (omega arith) refl takes tt)
  | inr not_it ↦ rw not_it (
      Walked-cons i p providers domain (select_from (suc i) providers domain) not_it
        (select_from-Walked (suc i) providers domain))
]

Walked-Selected :
    (p : DnsProviderConfig) (others : List DnsProviderConfig) (domain : Bytes) (z : ℤ)
    → Walked 0 (p ∷ others) domain z
    → Selected (p ∷ others) domain z
Walked-Selected p others domain z (hit n before after q at e h none_before) =
    let same : n ≡ length before = omega arith in
    rw same (first_match before after q e h none_before)
Walked-Selected p others domain z (missed n) = default_entry p others refl n

-- The index returned is -1 when no entry is configured; else it is that of the first entry one of
-- whose patterns matches the domain, and 0 when none does.
pub select_dns_provider-Selected :
    (providers : List DnsProviderConfig) (domain : Bytes)
    → Selected providers domain (select_dns_provider providers domain)
unfolding select_dns_provider
select_dns_provider-Selected [] domain = not_configured refl
select_dns_provider-Selected (p ∷ others) domain =
    Walked-Selected p others domain (select_from 0 (p ∷ others) domain)
      (select_from-Walked 0 (p ∷ others) domain)
