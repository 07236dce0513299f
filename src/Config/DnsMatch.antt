-- ===== src/Config/DnsMatch.antt =====
-- config/dns_match.go, and the choice of a provider in config/config.go.
pub mod Literal
pub mod Select
use edged.Base.{
  ℕ, suc, ◌+◌, ◌&&◌, ◌||◌, Bool, true, false, Option, none, some, List, [], ◌∷◌, if◌then◌else◌,
  is_empty, drop, length, Bytes, equal, normalize, trim_space, has_prefix, cut_prefix,
}
use edged.Base.Int.{ℤ, pos, negsuc}
use edged.Glob.{path_match}
use edged.Config.Types.{DnsProviderConfig}

-- "*."
abbrev pub wildcard : Bytes
wildcard = b'*' ∷ b'.' ∷ []

unfoldable pub domain_candidates : Bytes → List Bytes
domain_candidates domain =
    if has_prefix domain wildcard then domain ∷ drop 2 domain ∷ [] else domain ∷ []

-- `matched, err := path.Match(…); err == nil && matched`
abbrev pub matched : Option Bool → Bool
matched none = false
matched (some b) = b

-- The loop of `MatchDomain`.
unfoldable pub match_candidates : Bytes → List Bytes → Bool
match_candidates pattern [] = false
match_candidates pattern (candidate ∷ candidates) =
    if matched (path_match pattern candidate)
    then true
    else if has_prefix pattern wildcard && equal (drop 2 pattern) candidate
    then true
    else match_candidates pattern candidates

unfoldable pub match_domain : Bytes → Bytes → Bool
match_domain pattern domain =
    let p = normalize pattern in
    let d = normalize domain in
    if is_empty p || is_empty d then false else match_candidates p (domain_candidates d)

unfoldable pub match_globs : List Bytes → Bytes → Bool
match_globs [] domain = false
match_globs (pattern ∷ patterns) domain =
    if match_domain pattern domain then true else match_globs patterns domain

pub data PatternError : Type 0 where
  empty_pattern invalid_glob : PatternError

-- `none` is no error.
unfoldable pub validate_glob_pattern : Bytes → Option PatternError
validate_glob_pattern pattern =
    if is_empty (trim_space pattern)
    then some empty_pattern
    else elim (path_match pattern []) [ none ↦ some invalid_glob | some _ ↦ none ]

unfoldable pub matches_domain : DnsProviderConfig → Bytes → Bool
matches_domain p domain = match_globs p.match domain

-- The loop of `SelectDNSProvider`, from index `i` on.
unfoldable pub select_from : ℕ → List DnsProviderConfig → Bytes → ℤ
select_from i [] domain = pos 0
select_from i (p ∷ providers) domain =
    if matches_domain p domain then pos i else select_from (suc i) providers domain

unfoldable pub select_dns_provider : List DnsProviderConfig → Bytes → ℤ
select_dns_provider providers domain =
    if is_empty providers then negsuc 0 else select_from 0 providers domain
