-- ===== src/Acme/Manager/Disk.antt =====
-- acme/manager.go: `loadCertificatesFromDisk`. The directory and package crypto are a parameter.
use edged.Base.{
  ℕ, zero, suc, ◌-◌, Bool, true, false, Option, none, some, List, [], ◌∷◌, ◌++◌, if◌then◌else◌,
  is_empty, take, length, Bytes, codes, has_prefix, has_suffix,
}
use edged.Acme.Manager
use edged.Acme.Manager.{AcmeLib}

-- What `os.ReadDir` returns: the names, the error that there is no directory, or another one.
pub data Listing : Type 0 where
  listed : List Bytes → Listing
  not_exist list_failed : Listing

-- `strings.ReplaceAll(s, "_wildcard", "*")`; the number counts the bytes to drop.
unfoldable pub restore_star : ℕ → Bytes → Bytes
restore_star n [] = []
restore_star (suc n) (c ∷ s) = restore_star n s
restore_star zero (c ∷ s) =
    let found = b'*' ∷ restore_star 8 s in
    let onward = c ∷ restore_star 0 s in
    if has_prefix (c ∷ s) (codes "_wildcard") then found else onward

abbrev pub crt : Bytes
crt = codes ".crt"

-- `strings.TrimSuffix(name, ".crt")` for a name that ends so
unfoldable pub base_name : Bytes → Bytes
base_name name = take (length name - length crt) name

module _ (lib : AcmeLib) where
  open lib use {Cert, Time, World, join_paths, not_after}

  pub record DiskLib : Type 0 where
    pub read_dir : Bytes → World → Listing
    -- `os.Stat` does not say that the file is missing
    pub exists : Bytes → World → Bool
    -- `tls.LoadX509KeyPair`
    pub load_x509_key_pair : Bytes → Bytes → World → Option Cert
    -- the names of the first certificate; none where it cannot be parsed
    pub dns_names : Cert → List Bytes
    -- the zero value of `time.Time`
    pub zero_time : Time

  module _ (disk : DiskLib) where
    open disk use {read_dir, exists, load_x509_key_pair, dns_names, zero_time}

    -- The names of the certificate, or the one that the file's name stands for.
    unfoldable pub names_of : Bytes → Cert → List Bytes
    names_of base cert =
        if is_empty (dns_names cert) then restore_star 0 base ∷ [] else dns_names cert

    unfoldable pub loaded_expiry : Cert → Time
    loaded_expiry cert = elim (not_after cert) [ some exp ↦ exp | none ↦ zero_time ]

    -- The certificate of a file; `none` for a file that the loop passes over.
    unfoldable pub read_pair : Bytes → Bytes → World → Option Cert
    read_pair cert_dir name w =
        let key_path = join_paths (cert_dir ∷ (base_name name ++ codes ".key") ∷ []) in
        if has_suffix name crt
        then (if exists key_path w
            then load_x509_key_pair (join_paths (cert_dir ∷ name ∷ [])) key_path w
            else none)
        else none

    unfoldable pub load_file : Bytes → Bytes → World → Manager.Manager lib → Manager.Manager lib
    load_file cert_dir name w m = elim (read_pair cert_dir name w) [
      | none ↦ m
      | some cert ↦
          Manager.store_all lib cert (loaded_expiry cert) (names_of (base_name name) cert) m
    ]

    unfoldable pub load_files :
        Bytes → List Bytes → World → Manager.Manager lib → Manager.Manager lib
    load_files cert_dir [] w m = m
    load_files cert_dir (name ∷ files) w m =
        load_files cert_dir files w (load_file cert_dir name w m)

    -- The first part is false for an error.
    unfoldable pub load_certificates_from_disk :
        World → Manager.Manager lib → Bool × Manager.Manager lib
    load_certificates_from_disk w m =
        let cert_dir = join_paths (m.cfg.storage_path ∷ codes "certs" ∷ []) in
        elim (read_dir cert_dir w) [
          | not_exist ↦ (true, m)
          | list_failed ↦ (false, m)
          | listed files ↦ (true, load_files cert_dir files w m)
        ]
