-- ===== src/Proxy/Router/Best.antt =====
-- The loop of `ServeHTTP` finds the first of the longest matching prefixes.
use edged.Base.{
  ℕ, ◌≤◌, ◌<◌, Bool, true, false, ◌&&◌, ◌≡◌, refl, sym, ◌∙◌, ap, Option, none, some, List, [], ◌∷◌,
  ◌++◌, arith, length, Bytes, normalize, has_prefix, All, All-append, append_assoc, append-nil,
  Bool-cases, inl, inr, ◌⊎◌, if◌then◌else◌,
}
use mathlib.Core.Path.{subst}
use edged.Base.Int.{ℤ, pos, negsuc, ltb_ℤ}
use edged.Proxy.Hosts.{match_host_shared}
use edged.Proxy.Router.{
  RouteEntry, Search, consider, search_routes, cut_port, Response, not_found, proxied, Router,
  start_search, respond, serve_http,
}

-- The entry serves the host and the path.
abbrev pub serves : Bytes → Bytes → RouteEntry → Bool
serves host path e = match_host_shared host e.config.host && has_prefix path e.config.path_prefix

abbrev pub prefix_length : RouteEntry → ℕ
prefix_length e = length e.config.path_prefix

module _ (host path : Bytes) where
  abbrev pub Idle : RouteEntry → Type 0
  Idle x = serves host path x ≡ false

  abbrev pub Shorter : ℕ → RouteEntry → Type 0
  Shorter n x = serves host path x ≡ true → prefix_length x < n

  abbrev pub NotLonger : ℕ → RouteEntry → Type 0
  NotLonger n x = serves host path x ≡ true → prefix_length x ≤ n

  -- `e` serves the request; those in front of it that do have shorter prefixes, and those behind
  -- it no longer ones.
  pub record IsBest (routes : List RouteEntry) (e : RouteEntry) : Type 0 where
    pub before : List RouteEntry
    pub after : List RouteEntry
    pub splits : routes ≡ before ++ e ∷ after
    pub fits : serves host path e ≡ true
    pub first : All (Shorter (prefix_length e)) before
    pub longest : All (NotLonger (prefix_length e)) after

  abbrev pub BestOrNone : List RouteEntry → Option RouteEntry → Type 0
  BestOrNone routes none = All Idle routes
  BestOrNone routes (some e) = IsBest routes e

  abbrev Length : Option RouteEntry → ℤ → Type 0
  Length none n = n ≡ negsuc 0
  Length (some e) n = n ≡ pos (prefix_length e)

  record SearchInv (done : List RouteEntry) (s : Search) : Type 0 where
    best : BestOrNone done s.best_match
    len : Length s.best_match s.best_prefix_len

  Idle-Shorter : (n : ℕ) (xs : List RouteEntry) → All Idle xs → All (Shorter n) xs
  Idle-Shorter n [] h = tt
  Idle-Shorter n (x ∷ xs) h = (λ e. cc, Idle-Shorter n xs h.1)

  longer-Shorter :
      (m n : ℕ) (xs : List RouteEntry) → m < n → All (NotLonger m) xs → All (Shorter n) xs
  longer-Shorter m n [] lt h = tt
  longer-Shorter m n (x ∷ xs) lt h = (λ e. omega (arith, h.0 e), longer-Shorter m n xs lt h.1)

  Shorter-trans : (m n : ℕ) (xs : List RouteEntry) → m < n → All (Shorter m) xs → All (Shorter n) xs
  Shorter-trans m n [] lt h = tt
  Shorter-trans m n (x ∷ xs) lt h = (λ e. omega (arith, h.0 e), Shorter-trans m n xs lt h.1)

  abbrev Under : Option RouteEntry → RouteEntry → Type 0
  Under none x = Idle x
  Under (some e) x = NotLonger (prefix_length e) x

  -- An entry that the round passes over.
  pass :
      (done : List RouteEntry) (o : Option RouteEntry) (x : RouteEntry)
      → BestOrNone done o
      → Under o x
      → BestOrNone (done ++ x ∷ []) o
  pass done none x b u = All-append Idle done (x ∷ []) b (u, tt)
  pass done (some e) x b u = record {
    before = b.before;
    after = b.after ++ x ∷ [];
    splits =
        ap (λ (l : List RouteEntry). l ++ x ∷ []) b.splits
        ∙ append_assoc b.before (e ∷ b.after) (x ∷ []);
    fits = b.fits;
    first = b.first;
    longest = All-append (NotLonger (prefix_length e)) b.after (x ∷ []) b.longest (u, tt);
  }

  -- An entry that the round takes.
  take_over :
      (done : List RouteEntry) (o : Option RouteEntry) (n : ℤ) (x : RouteEntry)
      → BestOrNone done o
      → Length o n
      → serves host path x ≡ true
      → ltb_ℤ n (pos (prefix_length x)) ≡ true
      → IsBest (done ++ x ∷ []) x
  take_over done none n x b l fits lt = record {
    before = done;
    after = [];
    splits = refl;
    fits = fits;
    first = Idle-Shorter (prefix_length x) done b;
    longest = tt;
  }
  take_over done (some e) n x b l fits lt =
      let longer : prefix_length e < prefix_length x = ground arith in
      record {
        before = done;
        after = [];
        splits = refl;
        fits = fits;
        first = subst (All (Shorter (prefix_length x))) (sym b.splits) (
            All-append (Shorter (prefix_length x)) b.before (e ∷ b.after)
              (Shorter-trans (prefix_length e) (prefix_length x) b.before longer b.first)
              (
                (λ _. longer),
                longer-Shorter (prefix_length e) (prefix_length x) b.after longer b.longest,
              ));
        longest = tt;
      }

  kept-Under :
      (o : Option RouteEntry) (n : ℤ) (x : RouteEntry)
      → Length o n
      → ltb_ℤ n (pos (prefix_length x)) ≡ false
      → Under o x
  kept-Under none n x l keep = absurd (ground arith)
  kept-Under (some e) n x l keep = λ _. ground arith

  Idle-Under : (o : Option RouteEntry) (x : RouteEntry) → Idle x → Under o x
  Idle-Under none x h = h
  Idle-Under (some e) x h = λ t. cc

  consider_skip :
      (s : Search) (x : RouteEntry)
      → (serves host path x ≡ false) ⊎ (ltb_ℤ s.best_prefix_len (pos (prefix_length x)) ≡ false)
      → consider host path s x ≡ s
  unfolding consider
  consider_skip s x (inl idle) = ground arith
  consider_skip s x (inr keep) = ground arith

  consider_take :
      (s : Search) (x : RouteEntry)
      → serves host path x ≡ true
      → ltb_ℤ s.best_prefix_len (pos (prefix_length x)) ≡ true
      → consider host path s x
        ≡ record { best_match = some x; best_prefix_len = pos (prefix_length x) }
  unfolding consider
  consider_take s x fits lt = ground arith

  consider-SearchInv :
      (done : List RouteEntry) (s : Search) (x : RouteEntry)
      → SearchInv done s
      → SearchInv (done ++ x ∷ []) (consider host path s x)
  consider-SearchInv done s x i = elim (Bool-cases (serves host path x)) [
    | inl fits ↦ elim (Bool-cases (ltb_ℤ s.best_prefix_len (pos (prefix_length x)))) [
      | inl lt ↦ rw (consider_take s x fits lt) (record {
        best = take_over done s.best_match s.best_prefix_len x i.best i.len fits lt;
        len = refl;
      })
      | inr keep ↦ rw (consider_skip s x (inr keep)) (record {
        best =
            pass done s.best_match x i.best
              (kept-Under s.best_match s.best_prefix_len x i.len keep);
        len = i.len;
      })
    ]
    | inr idle ↦ rw (consider_skip s x (inl idle)) (record {
      best = pass done s.best_match x i.best (Idle-Under s.best_match x idle);
      len = i.len;
    })
  ]

  search_routes-SearchInv :
      (done routes : List RouteEntry) (s : Search)
      → SearchInv done s
      → SearchInv (done ++ routes) (search_routes host path s routes)
  unfolding search_routes
  search_routes-SearchInv done [] s i = rw append-nil i
  search_routes-SearchInv done (x ∷ routes) s i = rw (← append_assoc done (x ∷ []) routes) (
      search_routes-SearchInv (done ++ x ∷ []) routes (consider host path s x)
        (consider-SearchInv done s x i))

-- The answer to a request, from what the loop found.
abbrev pub Answers : Router → Bytes → Bytes → Response → Type 0
Answers r host path (not_found h) = (h ≡ host) × All (Idle host path) r.routes
Answers r host path (proxied e ctx) =
    IsBest host path r.routes e
    × (ctx.tied_to_server ≡ r.has_base_ctx)
    × (ctx.timeout ≡ (if ltb_ℤ (pos 0) e.config.timeout then some e.config.timeout else none))

respond-Answers :
    (r : Router) (host path : Bytes) (o : Option RouteEntry)
    → BestOrNone host path r.routes o
    → Answers r host path (respond r host o)
unfolding respond
respond-Answers r host path none b = (refl, b)
respond-Answers r host path (some e) b = elim (Bool-cases (ltb_ℤ (pos 0) e.config.timeout)) [
  | inl t ↦ rw t (b, refl, refl)
  | inr f ↦ rw f (b, refl, refl)
]

-- A request is answered with 404 exactly when no route serves its path and its host, cut at the
-- first colon, lowercased and trimmed; otherwise it goes to the first route among those with the
-- longest path prefix that do, with that route's timeout if it is positive, and is tied to the
-- server's context if the router has one.
pub serve_http-Answers :
    (r : Router) (request_host path : Bytes)
    → Answers r (normalize (cut_port request_host)) path (serve_http r request_host path)
unfolding serve_http
serve_http-Answers r request_host path =
    let host = normalize (cut_port request_host) in
    let found =
      search_routes-SearchInv host path [] r.routes start_search
        (record { best = tt; len = refl }) in
    respond-Answers r host path (search_routes host path start_search r.routes).best_match
      found.best
