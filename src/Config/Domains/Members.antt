-- ===== src/Config/Domains/Members.antt =====
-- Which domains certificates are acquired for.
use edged.Base.{
  ◌&&◌, ◌||◌, Bool, true, false, ◌≡◌, refl, sym, ◌∙◌, ◌↔◌, ◌⊎◌, inl, inr, List, [], ◌∷◌, Bytes,
  equal, equal_iff, normalize, arith, Bool-cases,
}
use mathlib.Core.Bool.{false≢true}
use edged.Config.Types.{ListenerConfig, Config}
use edged.Config.Domains.{
  https, insert_sorted, sort, contains, add_key, add_domains, collect, acme_domains,
}

-- Some element has the property.
abbrev pub Any {ℓ} : {A : Type ℓ} → (A → Type 0) → List A → Type 0
Any P [] = ⊥
Any P (x ∷ xs) = P x ⊎ Any P xs

abbrev pub AcquiresCertificates : ListenerConfig → Type 0
AcquiresCertificates l = (l.protocol ≡ https) × ((l.tls.enabled ≡ true) × (l.tls.use_acme ≡ true))

-- `d` is a domain, normalised, of a listener that acquires certificates.
abbrev pub Served : Bytes → List ListenerConfig → Type 0
Served d = Any (λ (l : ListenerConfig).
    AcquiresCertificates l × Any (λ (x : Bytes). normalize x ≡ d) l.tls.domains)

contains-insert_sorted :
    (d x : Bytes) (xs : List Bytes) → contains d (insert_sorted x xs) ≡ (equal x d || contains d xs)
unfolding contains insert_sorted
contains-insert_sorted d x [] = refl
contains-insert_sorted d x (y ∷ ys) = ground (arith, contains-insert_sorted d x ys)

contains-sort : (d : Bytes) (xs : List Bytes) → contains d (sort xs) ≡ contains d xs
unfolding contains sort
contains-sort d [] = refl
contains-sort d (x ∷ xs) = rw (contains-insert_sorted d x (sort xs), contains-sort d xs) refl

contains-add_key :
    (d x : Bytes) (keys : List Bytes)
    → (contains d (add_key x keys) ≡ true) ↔ ((x ≡ d) ⊎ (contains d keys ≡ true))
unfolding contains add_key
contains-add_key d x keys = elim (Bool-cases (contains x keys)) [
  | inl known ↦ rw known (inr, λ s. elim s [ inl e ↦ rw (sym e) known | inr h ↦ h ])
  | inr new ↦ rw new (ground (arith, equal_iff x d))
]

contains-add_domains :
    (d : Bytes) (domains keys : List Bytes)
    → (contains d (add_domains domains keys) ≡ true)
      ↔ (Any (λ (x : Bytes). normalize x ≡ d) domains ⊎ (contains d keys ≡ true))
unfolding add_domains
contains-add_domains d [] keys = (inr, λ s. elim s [ inl e ↦ absurd e | inr h ↦ h ])
contains-add_domains d (x ∷ domains) keys = (
  λ h. elim ((contains-add_domains d domains (add_key (normalize x) keys)).0 h) [
    | inl a ↦ inl (inr a)
    | inr k ↦ elim ((contains-add_key d (normalize x) keys).0 k) [
      | inl e ↦ inl (inl e)
      | inr h ↦ inr h
    ]
  ],
  λ s. (contains-add_domains d domains (add_key (normalize x) keys)).1 (into s),
)
  where
    into :
        ((normalize x ≡ d) ⊎ Any (λ (y : Bytes). normalize y ≡ d) domains)
          ⊎ (contains d keys ≡ true)
        → Any (λ (y : Bytes). normalize y ≡ d) domains
          ⊎ (contains d (add_key (normalize x) keys) ≡ true)
    into (inl (inl e)) = inr ((contains-add_key d (normalize x) keys).1 (inl e))
    into (inl (inr a)) = inl a
    into (inr h) = inr ((contains-add_key d (normalize x) keys).1 (inr h))

acquires_iff :
    (l : ListenerConfig)
    → ((equal l.protocol https && l.tls.enabled && l.tls.use_acme) ≡ true) ↔ AcquiresCertificates l
acquires_iff l =
    three (equal l.protocol https) l.tls.enabled l.tls.use_acme (equal_iff l.protocol https)
  where
    three :
        {P : Type 0} (a b c : Bool)
        → ((a ≡ true) ↔ P)
        → ((a && b && c) ≡ true) ↔ (P × ((b ≡ true) × (c ≡ true)))
    three true true c h = (λ e. (h.0 refl, (refl, e)), λ w. w.1.1)
    three true false c h = (λ e. absurd (false≢true e), λ w. absurd (false≢true w.1.0))
    three false b c h = (λ e. absurd (false≢true e), λ w. absurd (false≢true (h.1 w.0)))

contains-collect :
    (d : Bytes) (listeners : List ListenerConfig) (keys : List Bytes)
    → (contains d (collect listeners keys) ≡ true) ↔ (Served d listeners ⊎ (contains d keys ≡ true))
unfolding collect
contains-collect d [] keys = (inr, λ s. elim s [ inl e ↦ absurd e | inr h ↦ h ])
contains-collect d (l ∷ listeners) keys =
    elim (Bool-cases (equal l.protocol https && l.tls.enabled && l.tls.use_acme)) [
      | inl on ↦ rw on (
        λ h. elim ((contains-collect d listeners _).0 h) [
          | inl s ↦ inl (inr s)
          | inr k ↦ elim ((contains-add_domains d l.tls.domains keys).0 k) [
            | inl a ↦ inl (inl ((acquires_iff l).0 on, a))
            | inr h ↦ inr h
          ]
        ],
        λ s. (contains-collect d listeners _).1 (into s),
      )
      | inr off ↦ rw off (
        λ h. elim ((contains-collect d listeners keys).0 h) [ inl s ↦ inl (inr s) | inr k ↦ inr k ],
        λ s. (contains-collect d listeners keys).1 (past off s),
      )
    ]
  where
    Own : Type 0
    Own = AcquiresCertificates l × Any (λ (x : Bytes). normalize x ≡ d) l.tls.domains

    into :
        (Own ⊎ Served d listeners) ⊎ (contains d keys ≡ true)
        → Served d listeners ⊎ (contains d (add_domains l.tls.domains keys) ≡ true)
    into (inl (inl own)) = inr ((contains-add_domains d l.tls.domains keys).1 (inl own.1))
    into (inl (inr s)) = inl s
    into (inr h) = inr ((contains-add_domains d l.tls.domains keys).1 (inr h))

    past :
        (equal l.protocol https && l.tls.enabled && l.tls.use_acme) ≡ false
        → (Own ⊎ Served d listeners) ⊎ (contains d keys ≡ true)
        → Served d listeners ⊎ (contains d keys ≡ true)
    past off (inl (inl own)) = absurd (false≢true (sym off ∙ (acquires_iff l).1 own.0))
    past off (inl (inr s)) = inl s
    past off (inr h) = inr h

-- A text is among the domains to acquire certificates for exactly when it is, lowercased and
-- trimmed, a domain of a listener whose protocol is https, whose TLS is enabled and which uses ACME.
pub acme_domains_iff :
    (c : Config) (d : Bytes) → (contains d (acme_domains c) ≡ true) ↔ Served d c.listeners
unfolding acme_domains
acme_domains_iff c d = rw (contains-sort d (collect c.listeners [])) (
  λ h. elim ((contains-collect d c.listeners []).0 h) [
    | inl s ↦ s
    | inr e ↦ absurd (unfold contains in false≢true e)
  ],
  λ s. (contains-collect d c.listeners []).1 (inl s),
)
