-- ===== src/Acme/Manager/Serving.antt =====
-- Which certificate a TLS handshake is answered with.
use edged.Base.{
  ◌≡◌, ◌≢◌, refl, ◌∙◌, ap, false, Option, none, some, [], ◌∷◌, ◌++◌, is_empty, is_empty-eq, Bytes,
  codes, normalize, split, Lacks, split-append, split-Lacks, split-Words, uncut, cut, at_first, Map,
  lookup, Bool-cases, Option-cases, inl, inr,
}
use edged.Config.Domains.Members.{Any}
use edged.Acme.Manager
use edged.Acme.Manager.{AcmeLib, dot}

module _ (lib : AcmeLib) where
  open lib use {Cert}

  -- The certificate for a server name: with no name, one of those there are, and none only if there
  -- are none; else its own, or, if
  -- there is none and the name has a dot, that of the wildcard which covers it.
  pub data Served (certs : Map Cert) (name : Bytes) : Option Cert → Type 0 where
    any_cert :
        (cert : Cert)
        → name ≡ []
        → Any (λ (entry : Bytes × Cert). entry.1 ≡ cert) certs
        → Served certs name (some cert)
    without_certs : name ≡ [] → certs ≡ [] → Served certs name none
    own_cert :
        (cert : Cert) → name ≢ [] → lookup certs name ≡ some cert → Served certs name (some cert)
    wildcard_cert :
        (label zone : Bytes)
        → name ≡ label ++ dot ∷ zone
        → Lacks dot label
        → lookup certs name ≡ none
        → Served certs name (lookup certs (codes "*." ++ zone))
    no_cert : name ≢ [] → Lacks dot name → lookup certs name ≡ none → Served certs name none

  wildcard_name-cut :
      (label zone : Bytes)
      → Lacks dot label
      → Manager.wildcard_name lib (split dot (label ++ dot ∷ zone)) ≡ some (codes "*." ++ zone)
  unfolding Manager.wildcard_name
  wildcard_name-cut label zone l =
      let r = split-Words dot zone in
      rw (split-append dot label zone l, r.splits) (ap (λ t. some (codes "*." ++ t)) r.joins)

  wildcard_name-Lacks :
      (name : Bytes) → Lacks dot name → Manager.wildcard_name lib (split dot name) ≡ none
  unfolding Manager.wildcard_name
  wildcard_name-Lacks name l = rw (split-Lacks dot name l) refl

  lookup_wildcard :
      (certs : Map Cert) (name : Bytes)
      → name ≢ []
      → lookup certs name ≡ none
      → Served certs name (elim (Manager.wildcard_name lib (split dot name)) [
        | none ↦ none
        | some wild ↦ lookup certs wild
      ])
  lookup_wildcard certs name ne miss = elim (at_first dot name) [
    | uncut l ↦ rw (wildcard_name-Lacks name l) (no_cert ne l miss)
    | cut label zone e l ↦
        let found : Manager.wildcard_name lib (split dot name) ≡ some (codes "*." ++ zone) =
          ap (λ t. Manager.wildcard_name lib (split dot t)) e ∙ wildcard_name-cut label zone l in
        rw found (wildcard_cert label zone e l miss)
  ]

  first_cert-Served :
      (certs : Map Cert) (name : Bytes)
      → name ≡ []
      → Served certs name (Manager.first_cert lib certs)
  unfolding Manager.first_cert
  first_cert-Served [] name blank = without_certs blank refl
  first_cert-Served ((key, cert) ∷ certs) name blank = any_cert cert blank (inl refl)

  -- A handshake is answered with the certificate of the name asked for, lowercased and trimmed; if
  -- there is none, with that of the wildcard of the name behind its first dot; and one without a
  -- name with one of the certificates, if there are any. Otherwise it fails.
  pub get_certificate-Served :
      (m : Manager.Manager lib) (hello_server_name : Bytes)
      → Served m.certs
          (normalize hello_server_name)
          (Manager.get_certificate lib m hello_server_name)
  unfolding Manager.get_certificate
  get_certificate-Served m hello_server_name =
      let name = normalize hello_server_name in
      elim (Bool-cases (is_empty name)) [
        | inl empty ↦ rw empty (first_cert-Served m.certs name (is_empty-eq name empty))
        | inr named ↦ elim (Option-cases (lookup m.certs name)) [
          | inl miss ↦ rw (named, miss) (lookup_wildcard m.certs name (filled name named) miss)
          | inr (cert, hit) ↦ rw (named, hit) (own_cert cert (filled name named) hit)
        ]
      ]
    where
      filled : (s : Bytes) → is_empty s ≡ false → s ≢ []
      filled [] h e = cc
      filled (c ∷ s) h e = cc
