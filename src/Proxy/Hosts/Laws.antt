-- ===== src/Proxy/Hosts/Laws.antt =====
-- Which host names a route covers, and that the first such route is taken.
use edged.Base.{
  Bool, true, false, ◌||◌, ◌≡◌, refl, ◌∙◌, ap, ◌↔◌, ◌⊎◌, inl, inr, Option, none, some, List, [],
  ◌∷◌, ◌++◌, arith, is_empty, drop, Bytes, equal, equal_iff, normalize, has_prefix, has_suffix,
  has_prefix_iff, has_suffix_iff, Bool-cases, All, is_empty-eq, if◌then◌else◌,
}
use mathlib.Core.Bool.{false≢true}
use edged.Config.{RouteConfig}
use edged.Proxy.Hosts.{star, star_dot, match_host_shared, find_route, match_route_by_sni}

-- What the setting `host` of a route, normalised, stands for.
pub data Covers (request host : Bytes) : Type 0 where
  unset : host ≡ [] → Covers request host
  any : host ≡ star → Covers request host
  exact : request ≡ host → Covers request host
  below :
      (label zone : Bytes)
      → host ≡ b'*' ∷ b'.' ∷ zone
      → request ≡ label ++ b'.' ∷ zone
      → Covers request host

-- The branches of `match_host_shared` that accept.
accepted :
    (a b c p s : Bool)
    → (if a || (b || c) then true else if p then (if s then true else false) else false) ≡ true
    → (a ≡ true) ⊎ ((b ≡ true) ⊎ ((c ≡ true) ⊎ ((p ≡ true) × (s ≡ true))))
accepted true b c p s h = inl refl
accepted false true c p s h = inr (inl refl)
accepted false false true p s h = inr (inr (inl refl))
accepted false false false true true h = inr (inr (inr (refl, refl)))
accepted false false false true false h = absurd (false≢true h)
accepted false false false false s h = absurd (false≢true h)

Covers-below :
    (request host : Bytes)
    → has_prefix host star_dot ≡ true
    → has_suffix request (drop 1 host) ≡ true
    → Covers request host
Covers-below request host dotted ends =
    let (zone, e) = (has_prefix_iff host star_dot).0 dotted in
    let (label, s) = (has_suffix_iff request (drop 1 host)).0 ends in
    below label zone e (s ∙ ap (λ t. label ++ drop 1 t) e)

match_host_sound :
    (request route_host : Bytes)
    → match_host_shared request route_host ≡ true
    → Covers request (normalize route_host)
unfolding match_host_shared
match_host_sound request route_host h =
    let host = normalize route_host in
    elim (accepted (is_empty host) (equal host star) (equal request host) (has_prefix host star_dot)
      (has_suffix request (drop 1 host)) h) [
        | inl empty ↦ unset (is_empty-eq host empty)
        | inr (inl e) ↦ any ((equal_iff host star).0 e)
        | inr (inr (inl e)) ↦ exact ((equal_iff request host).0 e)
        | inr (inr (inr (dotted, ends))) ↦ Covers-below request host dotted ends
      ]

match_host_complete :
    (request route_host : Bytes)
    → Covers request (normalize route_host)
    → match_host_shared request route_host ≡ true
unfolding match_host_shared
match_host_complete request route_host (unset e) = rw e refl
match_host_complete request route_host (any e) =
    ground (arith, equal_iff (normalize route_host) star)
match_host_complete request route_host (exact e) =
    ground (arith, equal_iff request (normalize route_host))
match_host_complete request route_host (below label zone e s) = ground (
  arith,
  (has_prefix_iff (normalize route_host) star_dot).1 (zone, e),
  (has_suffix_iff request (b'.' ∷ zone)).1 (label, s),
)

-- A route's host setting matches a request's host exactly when it is empty, is `*`, is that host,
-- or is `*.zone` where the host ends in `.zone`; case and surrounding space of the setting aside.
pub match_host_shared_iff :
    (request route_host : Bytes)
    → (match_host_shared request route_host ≡ true) ↔ Covers request (normalize route_host)
match_host_shared_iff request route_host =
    (match_host_sound request route_host, match_host_complete request route_host)

-- `r` is the first route of the list that covers the host.
pub record IsFirst (host : Bytes) (routes : List RouteConfig) (r : RouteConfig) : Type 0 where
  pub before : List RouteConfig
  pub after : List RouteConfig
  pub splits : routes ≡ before ++ r ∷ after
  pub covers : Covers host (normalize r.host)
  pub passed : All (λ (x : RouteConfig). ¬ Covers host (normalize x.host)) before

abbrev pub FirstOrNone : Bytes → List RouteConfig → Option RouteConfig → Type 0
FirstOrNone host routes (some r) = IsFirst host routes r
FirstOrNone host routes none = All (λ (x : RouteConfig). ¬ Covers host (normalize x.host)) routes

FirstOrNone-cons :
    (host : Bytes) (r : RouteConfig) (routes : List RouteConfig) (o : Option RouteConfig)
    → ¬ Covers host (normalize r.host)
    → FirstOrNone host routes o
    → FirstOrNone host (r ∷ routes) o
FirstOrNone-cons host r routes none n h = (n, h)
FirstOrNone-cons host r routes (some x) n h = record {
  before = r ∷ h.before;
  after = h.after;
  splits = ap (◌∷◌ r) h.splits;
  covers = h.covers;
  passed = (n, h.passed);
}

find_route-FirstOrNone :
    (host : Bytes) (routes : List RouteConfig) → FirstOrNone host routes (find_route host routes)
unfolding find_route
find_route-FirstOrNone host [] = tt
find_route-FirstOrNone host (r ∷ routes) = elim (Bool-cases (match_host_shared host r.host)) [
  | inl hit ↦ rw hit (record {
    before = [];
    after = routes;
    splits = refl;
    covers = match_host_sound host r.host hit;
    passed = tt;
  })
  | inr miss ↦ rw miss (
      FirstOrNone-cons host r routes (find_route host routes)
        (λ c. cc (match_host_complete host r.host c)) (find_route-FirstOrNone host routes))
]

-- A connection is given the first route that covers its SNI, case and surrounding space aside, and
-- none exactly when no route covers it.
pub match_route_by_sni-FirstOrNone :
    (host : Bytes) (routes : List RouteConfig)
    → FirstOrNone (normalize host) routes (match_route_by_sni host routes)
unfolding match_route_by_sni
match_route_by_sni-FirstOrNone host routes = find_route-FirstOrNone (normalize host) routes
