-- ===== src/Acme/ArvanCloud.antt =====
-- acme/arvancloud_fix.go: the provider that deletes stale TXT records before it presents a
-- challenge. The HTTP client, the zones of package dns01 and lego's provider are a parameter.
pub mod Staleness
pub mod Cleaned
use edged.Base.{
  ℕ, Bool, true, false, not, ◌&&◌, ◌||◌, ◌==◌, Option, none, some, List, [], ◌∷◌, ◌++◌,
  if◌then◌else◌, is_empty, Bytes, codes, equal,
}

-- `arvancloudRecord`; the type has the name of its JSON key's content.
pub record ArvancloudRecord : Type 0 where
  pub id : Bytes
  pub name : Bytes
  pub kind : Bytes

-- A request: its method, the elements of its path, the search and the key that it carries.
pub data Request : Type 0 where
  list_request : List Bytes → Option Bytes → Bytes → Request
  delete_request : List Bytes → Bytes → Request

-- The status and the records that the body decodes to.
pub record Response : Type 0 where
  pub status : ℕ
  pub result : Option (List ArvancloudRecord)

pub record ArvanLib : Type 1 where
  pub World : Type 0
  pub Error : Type 0
  -- the client's `Do`
  pub send : Request → World → Option Response × World
  -- `GetChallengeInfo(domain, keyAuth).EffectiveFQDN`
  pub effective_fqdn : Bytes → Bytes → Bytes
  pub find_zone_by_fqdn : Bytes → World → Option Bytes × World
  pub un_fqdn : Bytes → Bytes
  pub extract_sub_domain : Bytes → Bytes → Option Bytes
  -- the inner provider
  pub inner_present : Bytes → Bytes → Bytes → World → Option Error × World
  pub inner_clean_up : Bytes → Bytes → Bytes → World → Option Error × World

-- `strings.ReplaceAll(name, "_", "")`
unfoldable pub without_underscores : Bytes → Bytes
without_underscores [] = []
without_underscores (c ∷ s) =
    let rest = without_underscores s in if c == b'_' then rest else c ∷ rest

-- The tests of the loop in `deleteRecordsByName`.
unfoldable pub is_stale : Bytes → ArvancloudRecord → Bool
is_stale name rec =
    if not (equal rec.kind (codes "txt"))
    then false
    else not (not (equal rec.name name) && not (equal rec.name (without_underscores name)))

abbrev pub records_path : Bytes → List Bytes
records_path zone = codes "cdn" ∷ codes "4.0" ∷ codes "domains" ∷ zone ∷ codes "dns-records" ∷ []

module _ (lib : ArvanLib) where
  open lib use {
    World, Error, send, effective_fqdn, find_zone_by_fqdn, un_fqdn, extract_sub_domain,
    inner_present, inner_clean_up,
  }

  -- The requests that the provider has sent, and the world.
  pub record Sent : Type 0 where
    pub requests : List Request
    pub world : World

  unfoldable pub do_request : Request → Sent → Option Response × Sent
  do_request r s =
      let (resp, w) = send r s.world in
      (resp, record { requests = s.requests ++ r ∷ []; world = w })

  -- `listRecords`; `none` is an error.
  unfoldable pub list_records : Bytes → Bytes → Bytes → Sent → Option (List ArvancloudRecord) × Sent
  list_records api_key zone search s =
      let wanted = if is_empty search then none else some search in
      let (resp, s1) = do_request (list_request (records_path zone) wanted api_key) s in
      (elim resp [ none ↦ none | some r ↦ if r.status == 200 then r.result else none ], s1)

  -- `deleteRecord`; the caller does not look at its error.
  unfoldable pub delete_record : Bytes → Bytes → Bytes → Sent → Bool × Sent
  delete_record api_key zone id s =
      let (resp, s1) = do_request (delete_request (records_path zone ++ id ∷ []) api_key) s in
      (elim resp [ none ↦ false | some r ↦ r.status == 200 ], s1)

  -- The loop of `deleteRecordsByName`.
  unfoldable pub delete_stale : Bytes → Bytes → Bytes → List ArvancloudRecord → Sent → Sent
  delete_stale api_key zone name [] s = s
  delete_stale api_key zone name (rec ∷ records) s =
      delete_stale api_key zone name records
        (if is_stale name rec then (delete_record api_key zone rec.id s).1 else s)

  unfoldable pub delete_records_by_name : Bytes → Bytes → Bytes → Sent → Sent
  delete_records_by_name api_key zone name s =
      let (records, s1) = list_records api_key zone name s in
      elim records [ none ↦ s1 | some recs ↦ delete_stale api_key zone name recs s1 ]

  -- The first part of `Present`.
  unfoldable pub clean_before : Bytes → Bytes → Sent → Sent
  clean_before api_key fqdn s =
      let (found, w) = find_zone_by_fqdn fqdn s.world in
      let s1 = record s { world = w } in
      elim found [
        | none ↦ s1
        | some auth_zone ↦ elim (extract_sub_domain fqdn (un_fqdn auth_zone)) [
          | none ↦ s1
          | some sub_domain ↦ delete_records_by_name api_key (un_fqdn auth_zone) sub_domain s1
        ]
      ]

  unfoldable pub present : Bytes → Bytes → Bytes → Bytes → Sent → Option Error × Sent
  present api_key domain token key_auth s =
      let s1 = clean_before api_key (effective_fqdn domain key_auth) s in
      let (e, w) = inner_present domain token key_auth s1.world in (e, record s1 { world = w })

  unfoldable pub clean_up : Bytes → Bytes → Bytes → Sent → Option Error × Sent
  clean_up domain token key_auth s =
      let (e, w) = inner_clean_up domain token key_auth s.world in (e, record s { world = w })
