-- ===== src/Acme/Manager.antt =====
-- acme/manager.go: the certificates in memory. The certificate authority, the disk, the clock and
-- package crypto are a parameter. Locks are left out: each method stands for one that runs alone.
pub mod Serving
pub mod Storing
pub mod Disk
pub mod Files
pub mod Loading
pub mod Ensuring
pub mod Renewing
pub mod Interval
use edged.Base.{
  ℕ, suc, ◌&&◌, ◌||◌, ◌==◌, not, Bool, true, false, Option, none, some, List, [], ◌∷◌, ◌++◌,
  if◌then◌else◌, is_empty, Bytes, codes, normalize, to_lower, split, join, Map, lookup, insert,
}
use edged.Base.Int.{ℤ}
use edged.Config.{AcmeConfig}

-- The PEM texts of `certificate.Resource`.
pub record Resource : Type 0 where
  pub certificate : Bytes
  pub private_key : Bytes

pub record AcmeLib : Type 1 where
  pub Cert : Type 0
  pub Time : Type 0
  pub World : Type 0
  -- `obtainMu.Lock()`, which may wait
  pub lock_obtain : World → World
  -- lego's `Certificate.Obtain`
  pub obtain : List Bytes → World → Option Resource × World
  -- `os.WriteFile` with the mode 0600; false for an error
  pub write_file : Bytes → Bytes → World → Bool × World
  -- `filepath.Join`
  pub join_paths : List Bytes → Bytes
  -- `tls.X509KeyPair`
  pub x509_key_pair : Bytes → Bytes → Option Cert
  -- `NotAfter` of the first certificate; `none` where it cannot be parsed or is zero
  pub not_after : Cert → Option Time
  -- `time.Now().AddDate(0, 3, 0)`
  pub in_three_months : World → Time
  -- `time.Until(exp).Hours()/24.0 < float64(days)`
  pub expires_within : Time → ℤ → World → Bool

pub data ManagerError : Type 0 where
  obtain_failed save_cert_failed save_key_failed parse_failed : ManagerError

abbrev pub dot : ℕ
dot = b'.'

module _ (lib : AcmeLib) where
  open lib use {
    Cert, Time, World, lock_obtain, obtain, write_file, join_paths, x509_key_pair, not_after,
    in_three_months, expires_within,
  }

  pub record Manager : Type 0 where
    pub cfg : AcmeConfig
    pub certs : Map Cert
    pub cert_meta : Map Time

  -- The error, the manager and the world behind a call.
  abbrev pub Result : Type 0
  Result = Option ManagerError × (Manager × World)

  -- `"*." + strings.Join(parts[1:], ".")` where there are two parts or more.
  unfoldable pub wildcard_name : List Bytes → Option Bytes
  wildcard_name [] = none
  wildcard_name (label ∷ []) = none
  wildcard_name (label ∷ zone ∷ zones) = some (codes "*." ++ join dot (zone ∷ zones))

  -- `for _, cert := range m.certs { return cert, nil }`
  unfoldable pub first_cert : Map Cert → Option Cert
  first_cert [] = none
  first_cert ((name, cert) ∷ certs) = some cert

  -- `none` is the error.
  unfoldable pub get_certificate : Manager → Bytes → Option Cert
  get_certificate m hello_server_name =
      let server_name = normalize hello_server_name in
      if is_empty server_name then first_cert m.certs else elim (lookup m.certs server_name) [
        | some cert ↦ some cert
        | none ↦ elim (wildcard_name (split dot server_name)) [
          | none ↦ none
          | some name ↦ lookup m.certs name
        ]
      ]

  -- The test of both loops: no certificate for the domain, or one that expires soon.
  unfoldable pub is_due : Manager → World → Bytes → Bool
  is_due m w domain = elim (lookup m.cert_meta (normalize domain)) [
    | none ↦ true
    | some exp ↦ expires_within exp m.cfg.renew_before_days w
  ]

  -- The loop of `EnsureDomains`, which collects `missingOrExpiring`.
  unfoldable pub missing_or_expiring : Manager → World → List Bytes → List Bytes
  missing_or_expiring m w [] = []
  missing_or_expiring m w (domain ∷ domains) =
      let rest = missing_or_expiring m w domains in
      if is_due m w domain then normalize domain ∷ rest else rest

  -- The loop of `obtainCertificate`, which stops at the first domain that is due.
  unfoldable pub needs_obtain : Manager → World → List Bytes → Bool
  needs_obtain m w [] = false
  needs_obtain m w (domain ∷ domains) = if is_due m w domain then true else needs_obtain m w domains

  -- `strings.ReplaceAll(s, "*", "_wildcard")`
  unfoldable pub replace_star : Bytes → Bytes
  replace_star [] = []
  replace_star (c ∷ s) =
      if c == b'*' then codes "_wildcard" ++ replace_star s else c ∷ replace_star s

  unfoldable pub store_all : Cert → Time → List Bytes → Manager → Manager
  store_all cert exp [] m = m
  store_all cert exp (domain ∷ domains) m = store_all cert exp domains (record m {
    certs = insert m.certs (normalize domain) cert;
    cert_meta = insert m.cert_meta (normalize domain) exp;
  })

  unfoldable pub expiry : Cert → World → Time
  expiry cert w = elim (not_after cert) [ some exp ↦ exp | none ↦ in_three_months w ]

  -- The part behind the request: both files, then the pair, then the maps.
  unfoldable pub save : Bytes → List Bytes → Resource → Manager → World → Result
  save primary domains res m w =
      let path = λ (ending : Bytes).
        join_paths (m.cfg.storage_path ∷ codes "certs" ∷ (primary ++ ending) ∷ []) in
      let (cert_written, w1) = write_file (path (codes ".crt")) res.certificate w in
      let (key_written, w2) = write_file (path (codes ".key")) res.private_key w1 in
      if not cert_written
      then (some save_cert_failed, (m, w1))
      else if not key_written
      then (some save_key_failed, (m, w2))
      else elim (x509_key_pair res.certificate res.private_key) [
        | none ↦ (some parse_failed, (m, w2))
        | some cert ↦ (none, (store_all cert (expiry cert w2) domains m, w2))
      ]

  -- `domains[0]` is there: the callers pass domains that are due.
  unfoldable pub primary_domain : List Bytes → Bytes
  primary_domain [] = []
  primary_domain (domain ∷ domains) = replace_star (to_lower domain)

  unfoldable pub obtain_certificate : List Bytes → Manager → World → Result
  obtain_certificate domains m w =
      let locked = lock_obtain w in
      if needs_obtain m locked domains
      then (let (answer, w1) = obtain domains locked in
          elim answer [
            | none ↦ (some obtain_failed, (m, w1))
            | some res ↦ save (primary_domain domains) domains res m w1
          ])
      else (none, (m, locked))

  unfoldable pub ensure_domains : List Bytes → Manager → World → Result
  ensure_domains domains m w =
      if is_empty domains
      then (none, (m, w))
      else if is_empty (missing_or_expiring m w domains)
      then (none, (m, w))
      else obtain_certificate domains m w
