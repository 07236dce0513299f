-- ===== src/Acme/Manager/Storing.antt =====
-- What the loop that stores a certificate under its names leaves behind.
use edged.Base.{
  ◌≡◌, refl, sym, ◌∙◌, true, false, some, List, [], ◌∷◌, Bytes, normalize, Map, lookup, insert,
  lookup-insert, Bool-cases, inl, inr, All, equal, equal_iff,
}
use edged.Acme.Manager
use edged.Acme.Manager.{
  AcmeLib, Resource, obtain_failed, save_cert_failed, save_key_failed, parse_failed,
}

module _ (lib : AcmeLib) where
  open lib use {Cert, Time, World, expires_within}

  abbrev pub Memory : Type 0
  Memory = Manager.Manager lib

  abbrev pub Loaded : Memory → Bytes → Type 0
  Loaded m domain = (cert : Cert) × (lookup m.certs (normalize domain) ≡ some cert)

  -- Every domain with an expiry has a certificate.
  abbrev pub IsPaired : Memory → Type 0
  IsPaired m =
      (name : Bytes) (exp : Time)
      → lookup m.cert_meta name ≡ some exp
      → (cert : Cert) × (lookup m.certs name ≡ some cert)

  abbrev with_cert : Memory → Bytes → Cert → Time → Memory
  with_cert m domain cert exp = record m {
    certs = insert m.certs (normalize domain) cert;
    cert_meta = insert m.cert_meta (normalize domain) exp;
  }

  insert-hit :
      (V : Type 0) (m : Map V) (key : Bytes) (v : V) (other : Bytes)
      → equal key other ≡ true
      → lookup (insert m key v) other ≡ some v
  insert-hit V m key v other e = lookup-insert m key v other ∙ rw e refl

  insert-miss :
      (V : Type 0) (m : Map V) (key : Bytes) (v : V) (other : Bytes)
      → equal key other ≡ false
      → lookup (insert m key v) other ≡ lookup m other
  insert-miss V m key v other e = lookup-insert m key v other ∙ rw e refl

  with_cert-IsPaired :
      (m : Memory) (domain : Bytes) (cert : Cert) (exp : Time)
      → IsPaired m
      → IsPaired (with_cert m domain cert exp)
  with_cert-IsPaired m domain cert exp p name at h =
      elim (Bool-cases (equal (normalize domain) name)) [
        | inl same ↦ (cert, insert-hit Cert m.certs (normalize domain) cert name same)
        | inr other ↦
            let (c, found) =
              p name at
                (sym (insert-miss Time m.cert_meta (normalize domain) exp name other) ∙ h) in
            (c, insert-miss Cert m.certs (normalize domain) cert name other ∙ found)
      ]

  with_cert-Loaded :
      (m : Memory) (domain other : Bytes) (cert : Cert) (exp : Time)
      → Loaded m other
      → Loaded (with_cert m domain cert exp) other
  with_cert-Loaded m domain other cert exp (c, found) =
      elim (Bool-cases (equal (normalize domain) (normalize other))) [
        | inl same ↦ (cert, insert-hit Cert m.certs (normalize domain) cert (normalize other) same)
        | inr apart ↦
            (c, insert-miss Cert m.certs (normalize domain) cert (normalize other) apart ∙ found)
      ]

  pub store_all-IsPaired :
      (cert : Cert) (exp : Time) (domains : List Bytes) (m : Memory)
      → IsPaired m
      → IsPaired (Manager.store_all lib cert exp domains m)
  unfolding Manager.store_all
  store_all-IsPaired cert exp [] m p = p
  store_all-IsPaired cert exp (d ∷ domains) m p =
      store_all-IsPaired cert exp domains (with_cert m d cert exp)
        (with_cert-IsPaired m d cert exp p)

  pub store_all-keeps :
      (cert : Cert) (exp : Time) (domains : List Bytes) (m : Memory) (d : Bytes)
      → Loaded m d
      → Loaded (Manager.store_all lib cert exp domains m) d
  unfolding Manager.store_all
  store_all-keeps cert exp [] m d l = l
  store_all-keeps cert exp (x ∷ domains) m d l =
      store_all-keeps cert exp domains (with_cert m x cert exp) d
        (with_cert-Loaded m x d cert exp l)

  pub store_all-Loaded :
      (cert : Cert) (exp : Time) (domains : List Bytes) (m : Memory)
      → All (Loaded (Manager.store_all lib cert exp domains m)) domains
  unfolding Manager.store_all
  store_all-Loaded cert exp [] m = tt
  store_all-Loaded cert exp (d ∷ domains) m =
      let same : equal (normalize d) (normalize d) ≡ true =
        (equal_iff (normalize d) (normalize d)).1 refl in
      (
        store_all-keeps cert exp domains (with_cert m d cert exp) d
            (cert, insert-hit Cert m.certs (normalize d) cert (normalize d) same),
        store_all-Loaded cert exp domains (with_cert m d cert exp),
      )
