-- ===== src/Config/DnsMatch/Literal.antt =====
-- MatchDomain on patterns without special bytes.
use edged.Base.{
  Bool, true, false, ◌||◌, if◌then◌else◌, ◌≡◌, refl, ap, sym, ◌∙◌, ◌↔◌, ◌⊎◌, inl, inr, [], ◌∷◌,
  ◌++◌, Bytes, Bool-cases, arith, Option, some, none, normalize, has_prefix, has_prefix_iff,
  is_empty, drop,
}
use mathlib.Core.Bool.{false≢true}
use edged.Glob.{path_match, path_match-IsPlain, IsPlain}
use edged.Config.DnsMatch.{wildcard, matched, domain_candidates, match_candidates, match_domain}

matched_iff : (p s : Bytes) → IsPlain p → (matched (path_match p s) ≡ true) ↔ (s ≡ p)
matched_iff p s plain = (
  λ h. (path_match-IsPlain p s plain).0 (is_some (path_match p s) h),
  λ e. ap matched ((path_match-IsPlain p s plain).1 e),
)
  where
    is_some : (o : Option Bool) → matched o ≡ true → o ≡ some true
    is_some none h = absurd (false≢true h)
    is_some (some b) h = ap some h

IsPlain-wildcard : (p : Bytes) → IsPlain p → has_prefix p wildcard ≡ false
unfolding has_prefix
IsPlain-wildcard [] h = refl
IsPlain-wildcard (c ∷ p) h = rw (h.0.0) refl

candidates_one : (p d : Bytes) → IsPlain p → (match_candidates p (d ∷ []) ≡ true) ↔ (d ≡ p)
unfolding match_candidates
candidates_one p d plain = ground (arith, matched_iff p d plain, IsPlain-wildcard p plain)

candidates_two :
    (p d e : Bytes) → IsPlain p → (match_candidates p (d ∷ e ∷ []) ≡ true) ↔ ((d ≡ p) ⊎ (e ≡ p))
unfolding match_candidates
candidates_two p d e plain =
    ground (arith, matched_iff p d plain, matched_iff p e plain, IsPlain-wildcard p plain)

dropped : (d rest : Bytes) → d ≡ wildcard ++ rest → drop 2 d ≡ rest
dropped d rest e = ap (drop 2) e

candidates_iff :
    (p d : Bytes)
    → IsPlain p
    → (match_candidates p (domain_candidates d) ≡ true) ↔ ((d ≡ p) ⊎ (d ≡ wildcard ++ p))
unfolding domain_candidates
candidates_iff p d plain = elim (Bool-cases (has_prefix d wildcard)) [
  | inl starred ↦ rw starred (
    λ h. elim ((candidates_two p d (drop 2 d) plain).0 h) [
      | inl e ↦ inl e
      | inr e ↦
          let (rest, split) = (has_prefix_iff d wildcard).0 starred in
          inr (split ∙ ap (λ t. wildcard ++ t) (sym (dropped d rest split) ∙ e))
    ],
    λ s.
        (candidates_two p d (drop 2 d) plain).1
          (elim s [ inl e ↦ inl e | inr e ↦ inr (dropped d p e) ]),
  )
  | inr bare ↦ rw bare (
    λ h. inl ((candidates_one p d plain).0 h),
    λ s. (candidates_one p d plain).1 (elim s [
      | inl e ↦ e
      | inr e ↦ absurd (false≢true (sym bare ∙ (has_prefix_iff d wildcard).1 (p, e)))
    ]),
  )
]

guarded :
    (p d : Bytes) (b : Bool)
    → ¬ (p ≡ [])
    → ((b ≡ true) ↔ ((d ≡ p) ⊎ (d ≡ wildcard ++ p)))
    → ((if is_empty p || is_empty d then false else b) ≡ true) ↔ ((d ≡ p) ⊎ (d ≡ wildcard ++ p))
guarded [] d b n h = absurd (n refl)
guarded (c ∷ p) [] b n h = (λ e. absurd (false≢true e), λ s. elim s [ inl e ↦ cc | inr e ↦ cc ])
guarded (c ∷ p) (x ∷ d) b n h = h

-- A pattern that is not blank and has none of `*`, `?`, `[` and `\` in it matches a domain exactly
-- when, case and surrounding space aside, the domain is the pattern or `*.` and the pattern.
pub match_domain-IsPlain :
    (pattern domain : Bytes)
    → IsPlain (normalize pattern)
    → ¬ (normalize pattern ≡ [])
    → (match_domain pattern domain ≡ true) ↔ (
        (normalize domain ≡ normalize pattern) ⊎ (normalize domain ≡ wildcard ++ normalize pattern))
unfolding match_domain
match_domain-IsPlain pattern domain plain filled =
    guarded (normalize pattern) (normalize domain) _ filled
      (candidates_iff (normalize pattern) (normalize domain) plain)
