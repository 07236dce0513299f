-- ===== src/Acme/Creating/Account.antt =====
-- The key and the account of the disk, or new ones.
use edged.Base.{
  ◌≡◌, refl, ◌⊎◌, ◌&&◌, and_true, and_false, true, false, Option, none, some, [], ◌∷◌, Bytes, codes,
  on_option, on_branches, if◌then◌else◌,
}
use edged.Config.{AcmeConfig}
use edged.Acme.Creating.{
  CreateLib, User, or_else, stored_key, load_or_create_private_key, load_user, user_of,
}

module _ (lib : CreateLib) where
  open lib use {
    Key, Registration, join_paths, mkdir_all, read_file, decode_pem, parse_ec, parse_pkcs1,
    parse_pkcs8, generate_key, marshal_key, writes_pem, unmarshal_user,
  }

  -- A PEM block holds the key in the first of the three formats in which it parses.
  pub data Parses (block : Bytes) (k : Key) : Type 0 where
    as_ec : parse_ec block ≡ some k → Parses block k
    as_pkcs1 : parse_ec block ≡ none → parse_pkcs1 block ≡ some k → Parses block k
    as_pkcs8 :
        parse_ec block ≡ none
        → parse_pkcs1 block ≡ none
        → parse_pkcs8 block ≡ some k
        → Parses block k

  -- The file holds the key.
  pub record Holds (path : Bytes) (k : Key) : Type 0 where
    pub text : Bytes
    pub block : Bytes
    pub read : read_file path ≡ some text
    pub decoded : decode_pem text ≡ some block
    pub parsed : Parses block k

  -- Why the file holds no key.
  pub data HoldsNone (path : Bytes) : Type 0 where
    missing : read_file path ≡ none → HoldsNone path
    no_pem : (text : Bytes) → read_file path ≡ some text → decode_pem text ≡ none → HoldsNone path
    no_format :
        (text block : Bytes)
        → read_file path ≡ some text
        → decode_pem text ≡ some block
        → parse_ec block ≡ none
        → parse_pkcs1 block ≡ none
        → parse_pkcs8 block ≡ none
        → HoldsNone path

  -- The key of the file, or a new one that has been written to it.
  pub data KeyOf (folder path : Bytes) (k : Key) : Type 0 where
    stored : Holds path k → KeyOf folder path k
    generated :
        (der : Bytes)
        → HoldsNone path
        → generate_key ≡ some k
        → marshal_key k ≡ some der
        → mkdir_all folder ≡ true
        → writes_pem path der ≡ true
        → KeyOf folder path k

  -- Why there is no key: the file holds none, and no new one can be made or written.
  pub data NoKey (folder path : Bytes) : Type 0 where
    ungenerated : HoldsNone path → generate_key ≡ none → NoKey folder path
    unmarshaled :
        (k : Key)
        → HoldsNone path
        → generate_key ≡ some k
        → marshal_key k ≡ none
        → NoKey folder path
    unwritten :
        (k : Key) (der : Bytes)
        → HoldsNone path
        → generate_key ≡ some k
        → marshal_key k ≡ some der
        → (mkdir_all folder ≡ false) ⊎ (writes_pem path der ≡ false)
        → NoKey folder path

  abbrev Stored : Bytes → Option Key → Type 0
  Stored path none = HoldsNone path
  Stored path (some k) = Holds path k

  stored_key-Stored : (path : Bytes) → Stored path (stored_key lib path)
  unfolding stored_key
  stored_key-Stored path = on_option (Stored path) (read_file path) _ _ missing λ text read.
      on_option (Stored path) (decode_pem text) _ _ (no_pem text read) (λ block decoded.
        formats text block read decoded (parse_ec block) (parse_pkcs1 block) (parse_pkcs8 block)
          refl refl refl)
    where
      formats :
          (text block : Bytes)
          → read_file path ≡ some text
          → decode_pem text ≡ some block
          → (ec pkcs1 pkcs8 : Option Key) → parse_ec block ≡ ec
          → parse_pkcs1 block ≡ pkcs1
          → parse_pkcs8 block ≡ pkcs8
          → Stored path (or_else lib ec (or_else lib pkcs1 pkcs8))
      formats text block read decoded (some k) p q a b c = record {
        text = text;
        block = block;
        read = read;
        decoded = decoded;
        parsed = as_ec a;
      }
      formats text block read decoded none (some k) q a b c = record {
        text = text;
        block = block;
        read = read;
        decoded = decoded;
        parsed = as_pkcs1 a b;
      }
      formats text block read decoded none none (some k) a b c = record {
        text = text;
        block = block;
        read = read;
        decoded = decoded;
        parsed = as_pkcs8 a b c;
      }
      formats text block read decoded none none none a b c = no_format text block read decoded a b c

  abbrev pub Keyed : Bytes → Bytes → Option Key → Type 0
  Keyed folder path none = NoKey folder path
  Keyed folder path (some k) = KeyOf folder path k

  pub load_or_create_private_key-Keyed :
      (folder path : Bytes) → Keyed folder path (load_or_create_private_key lib folder path)
  unfolding load_or_create_private_key
  load_or_create_private_key-Keyed folder path = from (stored_key lib path) (stored_key-Stored path)
    where
      from :
          (o : Option Key)
          → Stored path o
          → Keyed folder path (elim o [
            | some k ↦ some k
            | none ↦ elim generate_key [
              | none ↦ none
              | some k ↦ elim (marshal_key k) [
                | none ↦ none
                | some der ↦ if mkdir_all folder && writes_pem path der then some k else none
              ]
            ]
          ])
      from (some k) h = stored h
      from none h = on_option (Keyed folder path) generate_key _ _ (ungenerated h) λ k made.
          on_option (Keyed folder path) (marshal_key k) _ _ (unmarshaled k h made) λ der text.
            on_branches (Keyed folder path) (mkdir_all folder && writes_pem path der) _ _
              (λ both. let w = and_true _ _ both in generated der h made text w.0 w.1)
              (λ failed. unwritten k der h made text (and_false _ _ failed))

  -- The account of the file with the key, or a new one with the email address of the settings.
  pub data UserOf (cfg : AcmeConfig) (path : Bytes) (k : Key) : User lib → Type 0 where
    on_disk :
        (text email : Bytes) (r : Option Registration)
        → read_file path ≡ some text
        → unmarshal_user text ≡ some (email, r)
        → UserOf cfg path k (record { email = email; registration = r; key = k })
    unsaved :
        read_file path ≡ none
        → UserOf cfg path k (record { email = cfg.email; registration = none; key = k })
    unreadable :
        (text : Bytes)
        → read_file path ≡ some text
        → unmarshal_user text ≡ none
        → UserOf cfg path k (record { email = cfg.email; registration = none; key = k })

  abbrev pub user_path : AcmeConfig → Bytes
  user_path cfg = join_paths (cfg.storage_path ∷ codes "accounts" ∷ codes "user.json" ∷ [])

  pub user_of-UserOf :
      (cfg : AcmeConfig) (k : Key) → UserOf cfg (user_path cfg) k (user_of lib cfg k)
  unfolding user_of load_user
  user_of-UserOf cfg k = on_option Good (read_file (user_path cfg)) _ _ unsaved λ text read.
      on_option Good (unmarshal_user text) _ _ (unreadable text read)
        (λ x parsed. on_disk text x.0 x.1 read parsed)
    where
      Good : Option (User lib) → Type 0
      Good o = UserOf cfg (user_path cfg) k (elim o [
        | some u ↦ u
        | none ↦ record { email = cfg.email; registration = none; key = k }
      ])
