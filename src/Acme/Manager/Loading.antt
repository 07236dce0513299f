-- ===== src/Acme/Manager/Loading.antt =====
-- What loadCertificatesFromDisk leaves behind.
use edged.Base.{◌≡◌, refl, Bool, true, false, Option, none, some, List, [], ◌∷◌, Bytes, codes, All}
use edged.Acme.Manager
use edged.Acme.Manager.{AcmeLib}
use edged.Acme.Manager.Storing.{
  Memory, Loaded, IsPaired, store_all-IsPaired, store_all-keeps, store_all-Loaded,
}
use edged.Acme.Manager.Files.{HasNames, FileLoaded, read_pair-FileLoaded}
use edged.Acme.Manager.Disk
use edged.Acme.Manager.Disk.{
  Listing, listed, not_exist, list_failed, DiskLib, base_name, restore_star, crt,
}

module _ (lib : AcmeLib) (disk : DiskLib lib) where
  open lib use {Cert, Time, World, join_paths}

  load_file-IsPaired :
      (cert_dir name : Bytes) (w : World) (m : Memory lib)
      → IsPaired lib m
      → IsPaired lib (Disk.load_file lib disk cert_dir name w m)
  unfolding Disk.load_file
  load_file-IsPaired cert_dir name w m p = go (Disk.read_pair lib disk cert_dir name w)
    where
      go :
          (o : Option Cert)
          → IsPaired lib (elim o [
            | none ↦ m
            | some cert ↦
                Manager.store_all lib cert
                  (Disk.loaded_expiry lib disk cert)
                  (Disk.names_of lib disk (base_name name) cert)
                  m
          ])
      go none = p
      go (some cert) = store_all-IsPaired lib cert _ _ m p

  load_file-keeps :
      (cert_dir name : Bytes) (w : World) (m : Memory lib) (d : Bytes)
      → Loaded lib m d
      → Loaded lib (Disk.load_file lib disk cert_dir name w m) d
  unfolding Disk.load_file
  load_file-keeps cert_dir name w m d l = go (Disk.read_pair lib disk cert_dir name w)
    where
      go :
          (o : Option Cert)
          → Loaded lib
              (elim o [
                | none ↦ m
                | some cert ↦
                    Manager.store_all lib cert
                      (Disk.loaded_expiry lib disk cert)
                      (Disk.names_of lib disk (base_name name) cert)
                      m
              ])
              d
      go none = l
      go (some cert) = store_all-keeps lib cert _ _ m d l

  load_file-HasNames :
      (cert_dir name : Bytes) (w : World) (m : Memory lib)
      → HasNames lib disk
          (Disk.load_file lib disk cert_dir name w m)
          name
          (Disk.read_pair lib disk cert_dir name w)
  unfolding Disk.load_file
  load_file-HasNames cert_dir name w m = go (Disk.read_pair lib disk cert_dir name w)
    where
      go :
          (o : Option Cert)
          → HasNames lib disk
              (elim o [
                | none ↦ m
                | some cert ↦
                    Manager.store_all lib cert
                      (Disk.loaded_expiry lib disk cert)
                      (Disk.names_of lib disk (base_name name) cert)
                      m
              ])
              name
              o
      go none = tt
      go (some cert) = store_all-Loaded lib cert _ _ m

  load_files-IsPaired :
      (cert_dir : Bytes) (files : List Bytes) (w : World) (m : Memory lib)
      → IsPaired lib m
      → IsPaired lib (Disk.load_files lib disk cert_dir files w m)
  unfolding Disk.load_files
  load_files-IsPaired cert_dir [] w m p = p
  load_files-IsPaired cert_dir (name ∷ files) w m p =
      load_files-IsPaired cert_dir files w (Disk.load_file lib disk cert_dir name w m)
        (load_file-IsPaired cert_dir name w m p)

  load_files-keeps :
      (cert_dir : Bytes) (files : List Bytes) (w : World) (m : Memory lib) (d : Bytes)
      → Loaded lib m d
      → Loaded lib (Disk.load_files lib disk cert_dir files w m) d
  unfolding Disk.load_files
  load_files-keeps cert_dir [] w m d l = l
  load_files-keeps cert_dir (name ∷ files) w m d l =
      load_files-keeps cert_dir files w (Disk.load_file lib disk cert_dir name w m) d
        (load_file-keeps cert_dir name w m d l)

  All-keeps :
      (cert_dir : Bytes) (files : List Bytes) (w : World) (m : Memory lib) (names : List Bytes)
      → All (Loaded lib m) names
      → All (Loaded lib (Disk.load_files lib disk cert_dir files w m)) names
  All-keeps cert_dir files w m [] l = tt
  All-keeps cert_dir files w m (d ∷ names) l =
      (load_files-keeps cert_dir files w m d l.0, All-keeps cert_dir files w m names l.1)

  HasNames-keeps :
      (cert_dir : Bytes) (files : List Bytes) (w : World) (m : Memory lib) (name : Bytes)
      (o : Option Cert)
      → HasNames lib disk m name o
      → HasNames lib disk (Disk.load_files lib disk cert_dir files w m) name o
  HasNames-keeps cert_dir files w m name none l = tt
  HasNames-keeps cert_dir files w m name (some cert) l = All-keeps cert_dir files w m _ l

  load_files-HasNames :
      (cert_dir : Bytes) (files : List Bytes) (w : World) (m : Memory lib)
      → All
          (λ name.
            HasNames lib disk
              (Disk.load_files lib disk cert_dir files w m)
              name
              (Disk.read_pair lib disk cert_dir name w))
          files
  unfolding Disk.load_files
  load_files-HasNames cert_dir [] w m = tt
  load_files-HasNames cert_dir (name ∷ files) w m =
      let next = Disk.load_file lib disk cert_dir name w m in
      (
        HasNames-keeps cert_dir files w next name (Disk.read_pair lib disk cert_dir name w)
            (load_file-HasNames cert_dir name w m),
        load_files-HasNames cert_dir files w next,
      )

  All-FileLoaded :
      (cert_dir : Bytes) (w : World) (m : Memory lib) (files : List Bytes)
      → All (λ name. HasNames lib disk m name (Disk.read_pair lib disk cert_dir name w)) files
      → All (FileLoaded lib disk cert_dir w m) files
  All-FileLoaded cert_dir w m [] h = tt
  All-FileLoaded cert_dir w m (name ∷ files) h =
      (read_pair-FileLoaded lib disk cert_dir name w m h.0, All-FileLoaded cert_dir w m files h.1)

  -- What the manager holds behind a listing of the directory.
  abbrev pub Restored : Bytes → World → Memory lib → Listing → Bool × Memory lib → Type 0
  Restored cert_dir w m (listed files) (ok, m') =
      (ok ≡ true) × (IsPaired lib m' × All (FileLoaded lib disk cert_dir w m') files)
  Restored cert_dir w m not_exist (ok, m') = (ok ≡ true) × (m' ≡ m)
  Restored cert_dir w m list_failed (ok, m') = (ok ≡ false) × (m' ≡ m)

  -- Where every domain with an expiry has a certificate, loading the directory keeps that, and every
  -- file in it that ends in `.crt`, has its key beside it and parses has each of its names loaded. A
  -- directory that is not there changes nothing, and one that cannot be listed is the only error.
  pub load_certificates_from_disk-Restored :
      (w : World) (m : Memory lib)
      → IsPaired lib m
      → Restored
          (join_paths (m.cfg.storage_path ∷ codes "certs" ∷ []))
          w
          m
          (disk.read_dir (join_paths (m.cfg.storage_path ∷ codes "certs" ∷ [])) w)
          (Disk.load_certificates_from_disk lib disk w m)
  unfolding Disk.load_certificates_from_disk
  load_certificates_from_disk-Restored w m p =
      let cert_dir = join_paths (m.cfg.storage_path ∷ codes "certs" ∷ []) in
      elim (disk.read_dir cert_dir w)
        as (λ l. Restored cert_dir w m l (elim l [
          | not_exist ↦ (true, m)
          | list_failed ↦ (false, m)
          | listed files ↦ (true, Disk.load_files lib disk cert_dir files w m)
        ])) [
          | not_exist ↦ (refl, refl)
          | list_failed ↦ (refl, refl)
          | listed files ↦ (
            refl,
            (
              load_files-IsPaired cert_dir files w m p,
              All-FileLoaded cert_dir w _ files (load_files-HasNames cert_dir files w m),
            ),
          )
        ]
