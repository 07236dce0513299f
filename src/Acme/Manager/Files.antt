-- ===== src/Acme/Manager/Files.antt =====
-- What comes of a file of the directory of certificates.
use edged.Base.{
  ℕ, zero, suc, drop, has_prefix, has_prefix_iff, ◌-◌, ◌≡◌, ◌≢◌, refl, sym, ap, ◌∙◌, arith, true,
  false, Option, none, some, [], ◌∷◌, ◌++◌, Bytes, codes, All, is_empty, is_empty-eq, on_branches,
  has_suffix, has_suffix_iff, length, take, length-append, take-append, if◌then◌else◌,
}
use mathlib.Core.Path.{subst}
use mathlib.Core.Bool.{false≢true}
use edged.Acme.Manager.{AcmeLib}
use edged.Acme.Manager.Storing.{Memory, Loaded}
use edged.Acme.Manager.Disk
use edged.Acme.Manager.Disk.{
  Listing, listed, not_exist, list_failed, DiskLib, base_name, restore_star, crt,
}

-- A name in which a star stands for each `_wildcard` of another, read from the left.
pub data Restores : Bytes → Bytes → Type 0 where
  at_end : Restores [] []
  star : {s t : Bytes} → Restores s t → Restores (codes "_wildcard" ++ s) (b'*' ∷ t)
  other :
      {c : ℕ} {s t : Bytes}
      → has_prefix (c ∷ s) (codes "_wildcard") ≡ false
      → Restores s t
      → Restores (c ∷ s) (c ∷ t)

restore_star-Restores : (n : ℕ) (s : Bytes) → Restores (drop n s) (restore_star n s)
unfolding restore_star
restore_star-Restores zero [] = at_end
restore_star-Restores (suc n) [] = at_end
restore_star-Restores (suc n) (c ∷ s) = restore_star-Restores n s
restore_star-Restores zero (c ∷ s) =
    on_branches (Restores (c ∷ s)) (has_prefix (c ∷ s) (codes "_wildcard")) _ _
      (λ e.
        let (rest, is) = (has_prefix_iff (c ∷ s) (codes "_wildcard")).0 e in
        let behind : drop 8 s ≡ rest = ap (drop 9) is in
        subst (λ t. Restores t (b'*' ∷ restore_star 8 s)) (sym is)
          (star (subst (λ t. Restores t (restore_star 8 s)) behind (restore_star-Restores 8 s))))
      (λ e. other e (restore_star-Restores 0 s))

module _ (lib : AcmeLib) (disk : DiskLib lib) where
  open lib use {Cert, Time, World, join_paths}

  abbrev pub HasNames : Memory lib → Bytes → Option Cert → Type 0
  HasNames m name none = Unit
  HasNames m name (some cert) = All (Loaded lib m) (Disk.names_of lib disk (base_name name) cert)

  -- The names of the certificate are loaded, or, if it has none, the one that the file's name stands
  -- for, in which `_wildcard` is a star.
  pub data NamesLoaded (m : Memory lib) (base : Bytes) (cert : Cert) : Type 0 where
    by_certificate :
        disk.dns_names cert ≢ []
        → All (Loaded lib m) (disk.dns_names cert)
        → NamesLoaded m base cert
    by_file_name :
        disk.dns_names cert ≡ []
        → (name : Bytes) → Restores base name
        → Loaded lib m name
        → NamesLoaded m base cert

  -- What comes of a file: it is passed over if its name does not end in `.crt`, if its key is not
  -- beside it, or if the two cannot be read as a pair; else the names are loaded.
  pub data FileLoaded (cert_dir : Bytes) (w : World) (m : Memory lib) (name : Bytes) : Type 0 where
    other_name : ((base : Bytes) → name ≢ base ++ crt) → FileLoaded cert_dir w m name
    keyless :
        (base : Bytes)
        → name ≡ base ++ crt
        → disk.exists (join_paths (cert_dir ∷ (base ++ codes ".key") ∷ [])) w ≡ false
        → FileLoaded cert_dir w m name
    unreadable :
        (base : Bytes)
        → name ≡ base ++ crt
        → disk.exists (join_paths (cert_dir ∷ (base ++ codes ".key") ∷ [])) w ≡ true
        → disk.load_x509_key_pair
            (join_paths (cert_dir ∷ name ∷ []))
            (join_paths (cert_dir ∷ (base ++ codes ".key") ∷ []))
            w
          ≡ none
        → FileLoaded cert_dir w m name
    restored :
        (base : Bytes) (cert : Cert)
        → name ≡ base ++ crt
        → disk.exists (join_paths (cert_dir ∷ (base ++ codes ".key") ∷ [])) w ≡ true
        → disk.load_x509_key_pair
            (join_paths (cert_dir ∷ name ∷ []))
            (join_paths (cert_dir ∷ (base ++ codes ".key") ∷ []))
            w
          ≡ some cert
        → NamesLoaded m base cert
        → FileLoaded cert_dir w m name

  pub HasNames-NamesLoaded :
      (m : Memory lib) (base : Bytes) (cert : Cert)
      → All (Loaded lib m) (Disk.names_of lib disk base cert)
      → NamesLoaded m base cert
  unfolding Disk.names_of
  HasNames-NamesLoaded m base cert =
      on_branches (λ names. All (Loaded lib m) names → NamesLoaded m base cert)
        (is_empty (disk.dns_names cert)) _ _
        (λ e l. by_file_name (is_empty-eq _ e) _ (restore_star-Restores 0 base) l.0)
        (λ e l. by_certificate (λ blank. false≢true (sym e ∙ ap is_empty blank)) l)

  base_name-append : (base : Bytes) → base_name (base ++ crt) ≡ base
  unfolding base_name
  base_name-append base =
      let cut : length (base ++ crt) - length crt ≡ length base =
        omega (arith, length-append base crt) in
      ap (λ n. take n (base ++ crt)) cut ∙ take-append base crt

  pub read_pair-FileLoaded :
      (cert_dir name : Bytes) (w : World) (m : Memory lib)
      → HasNames m name (Disk.read_pair lib disk cert_dir name w)
      → FileLoaded cert_dir w m name
  unfolding Disk.read_pair
  read_pair-FileLoaded cert_dir name w m =
      on_branches Says (has_suffix name crt) _ _
        (λ e.
          let (base, is) = (has_suffix_iff name crt).0 e in
          let same : base_name name ≡ base = ap base_name is ∙ base_name-append base in
          subst
            (λ b. Says (
              if disk.exists (key_of b) w
              then disk.load_x509_key_pair (join_paths (cert_dir ∷ name ∷ [])) (key_of b) w
              else none))
            (sym same)
            (on_branches Says (disk.exists (key_of base) w) _ _
              (λ there.
                found base is same there
                  (disk.load_x509_key_pair (join_paths (cert_dir ∷ name ∷ [])) (key_of base) w)
                  refl)
              (λ missing h. keyless base is missing)))
        (λ e h. other_name (λ base is. false≢true (sym e ∙ (has_suffix_iff name crt).1 (base, is))))
    where
      key_of : Bytes → Bytes
      key_of base = join_paths (cert_dir ∷ (base ++ codes ".key") ∷ [])

      Says : Option Cert → Type 0
      Says o = HasNames m name o → FileLoaded cert_dir w m name

      found :
          (base : Bytes)
          → name ≡ base ++ crt
          → base_name name ≡ base
          → disk.exists (key_of base) w ≡ true
          → (o : Option Cert)
          → disk.load_x509_key_pair (join_paths (cert_dir ∷ name ∷ [])) (key_of base) w ≡ o
          → Says o
      found base is same there none e h = unreadable base is there e
      found base is same there (some cert) e h = restored base cert is there e (
          HasNames-NamesLoaded m base cert
            (subst (λ b. All (Loaded lib m) (Disk.names_of lib disk b cert)) same h))
