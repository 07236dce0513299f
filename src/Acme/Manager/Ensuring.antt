-- ===== src/Acme/Manager/Ensuring.antt =====
-- What EnsureDomains leaves behind.
use edged.Base.{
  ◌≡◌, ◌≢◌, refl, sym, Bool, true, false, not, Option, none, some, List, [], ◌∷◌, is_empty,
  is_empty-eq, Bytes, normalize, lookup, Bool-cases, Option-cases, inl, inr, if◌then◌else◌, All,
}
use mathlib.Core.Bool.{false≢true}
use edged.Acme.Manager
use edged.Acme.Manager.{
  AcmeLib, Resource, obtain_failed, save_cert_failed, save_key_failed, parse_failed,
}
use edged.Acme.Manager.Storing.{Memory, Loaded, IsPaired, store_all-IsPaired, store_all-Loaded}

module _ (lib : AcmeLib) where
  open lib use {Cert, World}

  is_due-Loaded :
      (m : Memory lib) (w : World) (d : Bytes)
      → IsPaired lib m
      → Manager.is_due lib m w d ≡ false
      → Loaded lib m d
  unfolding Manager.is_due
  is_due-Loaded m w d p h = elim (Option-cases (lookup m.cert_meta (normalize d))) [
    | inl absent ↦ absurd (false≢true (sym (rw (absent, Manager.is_due) at h)))
    | inr (exp, known) ↦ p (normalize d) exp known
  ]

  needs_obtain-Loaded :
      (m : Memory lib) (w : World) (domains : List Bytes)
      → IsPaired lib m
      → Manager.needs_obtain lib m w domains ≡ false
      → All (Loaded lib m) domains
  unfolding Manager.needs_obtain
  needs_obtain-Loaded m w [] p h = tt
  needs_obtain-Loaded m w (d ∷ domains) p h = elim (Bool-cases (Manager.is_due lib m w d)) [
    | inl due ↦ absurd (false≢true (sym (rw due at h)))
    | inr fine ↦ (is_due-Loaded m w d p fine, needs_obtain-Loaded m w domains p (rw fine at h))
  ]

  missing_or_expiring-Loaded :
      (m : Memory lib) (w : World) (domains : List Bytes)
      → IsPaired lib m
      → is_empty (Manager.missing_or_expiring lib m w domains) ≡ true
      → All (Loaded lib m) domains
  unfolding Manager.missing_or_expiring
  missing_or_expiring-Loaded m w [] p h = tt
  missing_or_expiring-Loaded m w (d ∷ domains) p h = elim (Bool-cases (Manager.is_due lib m w d)) [
    | inl due ↦ absurd (false≢true (rw due at h))
    | inr fine ↦
        (is_due-Loaded m w d p fine, missing_or_expiring-Loaded m w domains p (rw fine at h))
  ]

  -- The outcome of a call on `domains`: no error and every domain loaded, or an error and the
  -- manager as it was; paired in both cases.
  abbrev pub Ensured : List Bytes → Memory lib → Manager.Result lib → Type 0
  Ensured domains m (none, (m', w)) = IsPaired lib m' × All (Loaded lib m') domains
  Ensured domains m (some e, (m', w)) = IsPaired lib m' × (m' ≡ m)

  save-Ensured :
      (primary : Bytes) (domains : List Bytes) (res : Resource) (m : Memory lib) (w : World)
      → IsPaired lib m
      → Ensured domains m (Manager.save lib primary domains res m w)
  unfolding Manager.save
  save-Ensured primary domains res m w p =
      branches _ _ _ _ (lib.x509_key_pair res.certificate res.private_key)
    where
      branches :
          (crt key : Bool) (w1 w2 : World) (pair : Option Cert)
          → Ensured domains m (
              if not crt
              then (some save_cert_failed, (m, w1))
              else if not key
              then (some save_key_failed, (m, w2))
              else elim pair [
                | none ↦ (some parse_failed, (m, w2))
                | some cert ↦
                    (none, (Manager.store_all lib cert (Manager.expiry lib cert w2) domains m, w2))
              ])
      branches false key w1 w2 pair = (p, refl)
      branches true false w1 w2 pair = (p, refl)
      branches true true w1 w2 none = (p, refl)
      branches true true w1 w2 (some cert) =
          (store_all-IsPaired lib cert _ domains m p, store_all-Loaded lib cert _ domains m)

  obtain_certificate-Ensured :
      (domains : List Bytes) (m : Memory lib) (w : World)
      → IsPaired lib m
      → Ensured domains m (Manager.obtain_certificate lib domains m w)
  unfolding Manager.obtain_certificate
  obtain_certificate-Ensured domains m w p =
      elim (Bool-cases (Manager.needs_obtain lib m (lib.lock_obtain w) domains)) [
        | inl due ↦ rw due (answered (lib.obtain domains (lib.lock_obtain w)))
        | inr fine ↦ rw fine (p, needs_obtain-Loaded m (lib.lock_obtain w) domains p fine)
      ]
    where
      answered :
          (a : Option Resource × World)
          → Ensured domains m (elim a.0 [
            | none ↦ (some obtain_failed, (m, a.1))
            | some res ↦ Manager.save lib (Manager.primary_domain lib domains) domains res m a.1
          ])
      answered (none, w1) = (p, refl)
      answered (some res, w1) = save-Ensured _ domains res m w1 p

  -- Where every domain with an expiry has a certificate, `EnsureDomains` keeps that, whatever the
  -- authority and the disk do; without an error every domain passed has a certificate in memory,
  -- and with one the memory is as it was.
  pub ensure_domains-Ensured :
      (domains : List Bytes) (m : Memory lib) (w : World)
      → IsPaired lib m
      → Ensured domains m (Manager.ensure_domains lib domains m w)
  unfolding Manager.ensure_domains
  ensure_domains-Ensured [] m w p = (p, tt)
  ensure_domains-Ensured (d ∷ domains) m w p =
      elim (Bool-cases (is_empty (Manager.missing_or_expiring lib m w (d ∷ domains)))) [
        | inl current ↦ rw current (p, missing_or_expiring-Loaded m w (d ∷ domains) p current)
        | inr due ↦ rw due (obtain_certificate-Ensured (d ∷ domains) m w p)
      ]

  -- The handshakes that ask for the domain are answered.
  abbrev pub Answered : Memory lib → Bytes → Type 0
  Answered m domain = (cert : Cert) × (Manager.get_certificate lib m domain ≡ some cert)

  Loaded-Answered :
      (m : Memory lib) (domain : Bytes)
      → normalize domain ≢ []
      → Loaded lib m domain
      → Answered m domain
  unfolding Manager.get_certificate
  Loaded-Answered m domain named (cert, found) = elim (Bool-cases (is_empty (normalize domain))) [
    | inl blank ↦ absurd (named (is_empty-eq (normalize domain) blank))
    | inr filled ↦ (cert, rw (filled, found) refl)
  ]

  abbrev pub IsNamed : Bytes → Type 0
  IsNamed domain = normalize domain ≢ []

  All-Answered :
      (m : Memory lib) (domains : List Bytes)
      → All IsNamed domains
      → All (Loaded lib m) domains
      → All (Answered m) domains
  All-Answered m [] n l = tt
  All-Answered m (d ∷ domains) n l = (Loaded-Answered m d n.0 l.0, All-Answered m domains n.1 l.1)

  -- After a call of `EnsureDomains` without an error, on a manager in which every domain with an
  -- expiry has a certificate, `GetCertificate` returns a certificate for every domain passed, where
  -- none of them is blank.
  pub ensure_domains-Answered :
      (domains : List Bytes) (m : Memory lib) (w : World)
      → IsPaired lib m
      → All IsNamed domains
      → (Manager.ensure_domains lib domains m w).0 ≡ none
      → All (Answered (Manager.ensure_domains lib domains m w).1.0) domains
  ensure_domains-Answered domains m w p n e =
      from_outcome (Manager.ensure_domains lib domains m w) (ensure_domains-Ensured domains m w p) e
    where
      from_outcome :
          (r : Manager.Result lib) → Ensured domains m r → r.0 ≡ none → All (Answered r.1.0) domains
      from_outcome (none, (m', w')) o e = All-Answered m' domains n o.1
      from_outcome (some err, (m', w')) o e = absurd (cc e)
