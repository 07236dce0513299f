-- ===== src/Acme/ArvanCloud/Cleaned.antt =====
-- What `Present` deletes.

use edged.Base.{
  ◌≡◌, refl, sym, ◌∙◌, ap, ◌==◌, Option, none, some, List, [], ◌∷◌, ◌++◌, append_assoc, append-nil,
  if◌then◌else◌, Bytes, on_branches, on_option, is_empty,
}
use mathlib.Core.Bool.{false≢true}
use edged.Acme.ArvanCloud.{
  ArvancloudRecord, Request, list_request, delete_request, Response, ArvanLib, is_stale,
  records_path, Sent, do_request, list_records, delete_record, delete_stale, delete_records_by_name,
  clean_before, present,
}
use edged.Acme.ArvanCloud.Staleness.{Stale, is_stale_iff}

module _ (lib : ArvanLib) where
  open lib use {
    World, Error, send, effective_fqdn, find_zone_by_fqdn, un_fqdn, extract_sub_domain,
    inner_present,
  }

  -- One request for each stale record, in the order of the list, and none for the others; between
  -- the worlds in front of them and behind them.
  pub data Deletes (api_key zone name : Bytes)
      : List ArvancloudRecord → List Request → World → World → Type 0 where
    no_record : {w : World} → Deletes api_key zone name [] [] w w
    deleting :
        {rec : ArvancloudRecord} {recs : List ArvancloudRecord} {reqs : List Request} {w w' : World}
        → Stale name rec
        → Deletes api_key zone name recs reqs
            (send (delete_request (records_path zone ++ rec.id ∷ []) api_key) w).1
            w'
        → Deletes api_key zone name
            (rec ∷ recs)
            (delete_request (records_path zone ++ rec.id ∷ []) api_key ∷ reqs)
            w
            w'
    keeping :
        {rec : ArvancloudRecord} {recs : List ArvancloudRecord} {reqs : List Request} {w w' : World}
        → ¬ Stale name rec
        → Deletes api_key zone name recs reqs w w'
        → Deletes api_key zone name (rec ∷ recs) reqs w w'

  -- The requests that follow those of `s`, and the world behind them.
  abbrev Follows : (List Request → World → Type 0) → Sent lib → Sent lib → Type 0
  Follows P s s' = (reqs : List Request) × P reqs s'.world × (s'.requests ≡ s.requests ++ reqs)

  delete_stale-Deletes :
      (api_key zone name : Bytes) (recs : List ArvancloudRecord) (s : Sent lib)
      → Follows
          (λ reqs. Deletes api_key zone name recs reqs s.world)
          s
          (delete_stale lib api_key zone name recs s)
  unfolding delete_stale delete_record do_request
  delete_stale-Deletes api_key zone name [] s = ([], no_record, sym (append-nil _))
  delete_stale-Deletes api_key zone name (rec ∷ recs) s =
      on_branches
        (λ t.
          Follows (λ reqs. Deletes api_key zone name (rec ∷ recs) reqs s.world) s
            (delete_stale lib api_key zone name recs t))
        (is_stale name rec) _ _
        (λ e.
          let (reqs, d, more) =
            delete_stale-Deletes api_key zone name recs
              (delete_record lib api_key zone rec.id s).1 in
          (
            delete_request (records_path zone ++ rec.id ∷ []) api_key ∷ reqs,
            deleting ((is_stale_iff name rec).0 e) d,
            more
                ∙ append_assoc s.requests
                    (delete_request (records_path zone ++ rec.id ∷ []) api_key ∷ []) reqs,
          ))
        (λ e.
          let (reqs, d, more) = delete_stale-Deletes api_key zone name recs s in
          (reqs, keeping (λ stale. false≢true (sym e ∙ (is_stale_iff name rec).1 stale)) d, more))

  -- The request that lists the records of a zone.
  abbrev pub listing : Bytes → Bytes → Bytes → Request
  listing api_key zone name =
      list_request (records_path zone) (if is_empty name then none else some name) api_key

  -- The records that a response gives; `none` for an error.
  abbrev pub records_in : Option Response → Option (List ArvancloudRecord)
  records_in none = none
  records_in (some r) = if r.status == 200 then r.result else none

  -- The requests that are sent for a domain before its challenge is presented, and the world behind
  -- them: none without a zone, else the one that lists the records, and then the deletions if there
  -- is a list.
  pub data Cleans (api_key fqdn : Bytes) (w : World) : List Request → World → Type 0 where
    no_zone :
        (find_zone_by_fqdn fqdn w).0 ≡ none → Cleans api_key fqdn w [] (find_zone_by_fqdn fqdn w).1
    no_sub_domain :
        (zone : Bytes)
        → (find_zone_by_fqdn fqdn w).0 ≡ some zone
        → extract_sub_domain fqdn (un_fqdn zone) ≡ none
        → Cleans api_key fqdn w [] (find_zone_by_fqdn fqdn w).1
    unlisted :
        (zone sub : Bytes)
        → (find_zone_by_fqdn fqdn w).0 ≡ some zone
        → extract_sub_domain fqdn (un_fqdn zone) ≡ some sub
        → records_in (send (listing api_key (un_fqdn zone) sub) (find_zone_by_fqdn fqdn w).1).0
          ≡ none
        → Cleans api_key fqdn w
            (listing api_key (un_fqdn zone) sub ∷ [])
            (send (listing api_key (un_fqdn zone) sub) (find_zone_by_fqdn fqdn w).1).1
    listed :
        (zone sub : Bytes) (recs : List ArvancloudRecord) (reqs : List Request) {w' : World}
        → (find_zone_by_fqdn fqdn w).0 ≡ some zone
        → extract_sub_domain fqdn (un_fqdn zone) ≡ some sub
        → records_in (send (listing api_key (un_fqdn zone) sub) (find_zone_by_fqdn fqdn w).1).0
          ≡ some recs
        → Deletes api_key
            (un_fqdn zone)
            sub
            recs
            reqs
            (send (listing api_key (un_fqdn zone) sub) (find_zone_by_fqdn fqdn w).1).1
            w'
        → Cleans api_key fqdn w (listing api_key (un_fqdn zone) sub ∷ reqs) w'

  list_records-eq :
      (api_key zone name : Bytes) (s : Sent lib)
      → (list_records lib api_key zone name s).0
        ≡ records_in (send (listing api_key zone name) s.world).0
  unfolding list_records do_request
  list_records-eq api_key zone name s = from (send (listing api_key zone name) s.world).0
    where
      from :
          (r : Option Response)
          → elim r [ none ↦ none | some r ↦ if r.status == 200 then r.result else none ]
            ≡ records_in r
      from none = refl
      from (some r) = refl

  list_records-requests :
      (api_key zone name : Bytes) (s : Sent lib)
      → (list_records lib api_key zone name s).1.requests
        ≡ s.requests ++ listing api_key zone name ∷ []
  unfolding list_records do_request
  list_records-requests api_key zone name s = refl

  clean_before-Cleans :
      (api_key fqdn : Bytes) (s : Sent lib)
      → Follows (Cleans api_key fqdn s.world) s (clean_before lib api_key fqdn s)
  unfolding clean_before delete_records_by_name list_records do_request
  clean_before-Cleans api_key fqdn s =
      on_option (Follows (Cleans api_key fqdn s.world) s) (find_zone_by_fqdn fqdn s.world).0 _ _
        (λ e. ([], no_zone e, sym (append-nil _)))
        λ zone found.
          on_option (Follows (Cleans api_key fqdn s.world) s)
            (extract_sub_domain fqdn (un_fqdn zone)) _ _
            (λ e. ([], no_sub_domain zone found e, sym (append-nil _)))
            λ sub cut.
              on_option (Follows (Cleans api_key fqdn s.world) s)
                (list_records lib api_key (un_fqdn zone) sub s1).0 _ _
                (λ e. (
                  listing api_key (un_fqdn zone) sub ∷ [],
                  unlisted zone sub found cut (sym (list_records-eq _ _ _ s1) ∙ e),
                  list_records-requests api_key (un_fqdn zone) sub s1,
                ))
                (λ recs e.
                  let (reqs, d, more) =
                    delete_stale-Deletes api_key (un_fqdn zone) sub recs
                      (list_records lib api_key (un_fqdn zone) sub s1).1 in
                  (
                    listing api_key (un_fqdn zone) sub ∷ reqs,
                    listed zone sub recs reqs found cut (sym (list_records-eq _ _ _ s1) ∙ e) d,
                    more
                        ∙ ap (λ t. t ++ reqs) (list_records-requests api_key (un_fqdn zone) sub s1)
                        ∙ append_assoc s.requests (listing api_key (un_fqdn zone) sub ∷ []) reqs,
                  ))
    where
      s1 : Sent lib
      s1 = record s { world = (find_zone_by_fqdn fqdn s.world).1 }

  -- `present` sends only the requests of the cleaning: it lists the records of the domain's zone by the
  -- sub-domain of the challenge, and deletes exactly those listed that are TXT records of that name, with or
  -- without its underscores. Whatever comes of that, it ends with the inner provider's
  -- answer in the world behind the cleaning.
  pub present-Cleans :
      (api_key domain token key_auth : Bytes) (s : Sent lib)
      → (reqs : List Request) × (w : World) × Cleans api_key
          (effective_fqdn domain key_auth)
          s.world
          reqs
          w
        × (present lib api_key domain token key_auth s ≡ (
          (inner_present domain token key_auth w).0,
          record {
            requests = s.requests ++ reqs;
            world = (inner_present domain token key_auth w).1;
          },
        ))
  unfolding present
  present-Cleans api_key domain token key_auth s =
      let fqdn = effective_fqdn domain key_auth in
      let (reqs, cleans, more) = clean_before-Cleans api_key fqdn s in
      let w = (clean_before lib api_key fqdn s).world in
      let answer = inner_present domain token key_auth w in
      (reqs, w, cleans, ap (ended answer) more)
    where
      ended : Option Error × World → List Request → Option Error × Sent lib
      ended answer all = (answer.0, record { requests = all; world = answer.1 })
