-- ===== src/Proxy/Setup/Built.antt =====
-- What `NewProxyRouter` makes of the routes.
use edged.Base.{
  ℕ, suc, Bool, Option, ◌↔◌, ◌≡◌, ◌≢◌, refl, ◌⊎◌, inl, inr, true, false, none, some, List, [], ◌∷◌,
  Bytes, is_empty, is_empty-eq, on_branches, on_option,
}
use edged.Config.{RouteConfig}
use edged.Proxy.Router.{Url, Router}
use edged.Proxy.Setup.{
  UrlLib, directly, through_socks5, upstream_tls_config, Transport, RouterError, invalid_upstream,
  invalid_socks5_proxy, no_socks5_dialer, Proxied, custom_transport, tunneled, socks5_transport,
  route_entry, and_then, route_entries, entries_of, new_proxy_router,
}

filled : (s : Bytes) → is_empty s ≡ false → s ≢ []
filled [] h e = cc
filled (c ∷ s) h e = cc

module _ (lib : UrlLib) where
  open lib use {parse_url, has_dialer}

  -- How a route reaches its upstream: directly, with a proxy of the environment allowed, or through the
  -- SOCKS5 proxy that the route has, with no other proxy.
  pub data Reaches (rc : RouteConfig) (t : Transport) : Type 0 where
    bare :
        rc.upstream_socks5_proxy ≡ []
        → t.dial_context ≡ directly rc.dialer_timeout rc.dialer_keepalive
        → t.proxy_from_environment ≡ true
        → Reaches rc t
    by_proxy :
        (url : Url)
        → rc.upstream_socks5_proxy ≢ []
        → parse_url rc.upstream_socks5_proxy ≡ some url
        → has_dialer url ≡ true
        → t.dial_context ≡ through_socks5 url
        → t.proxy_from_environment ≡ false
        → Reaches rc t

  -- The settings that the transport takes over; certificates are not verified only where the route
  -- says so.
  pub record HasSettings (rc : RouteConfig) (t : Transport) : Type 0 where
    pub http2 : t.force_attempt_http2 ≡ rc.force_attempt_http2
    pub idle_conns : t.max_idle_conns ≡ rc.max_idle_conns
    pub idle_timeout : t.idle_conn_timeout ≡ rc.idle_conn_timeout
    pub handshake_timeout : t.tls_handshake_timeout ≡ rc.tls_handshake_timeout
    pub continue_timeout : t.expect_continue_timeout ≡ rc.expect_continue_timeout
    pub verifies : (t.insecure_skip_verify ≡ true) ↔ (rc.verify_ssl ≡ some false)

  -- What is wrong with a route.
  pub data Refuses (i : ℕ) (rc : RouteConfig) : RouterError → Type 0 where
    bad_upstream : parse_url rc.upstream ≡ none → Refuses i rc (invalid_upstream i)
    bad_proxy :
        (target : Url)
        → parse_url rc.upstream ≡ some target
        → rc.upstream_socks5_proxy ≢ []
        → parse_url rc.upstream_socks5_proxy ≡ none
        → Refuses i rc (invalid_socks5_proxy i)
    bad_dialer :
        (target url : Url)
        → parse_url rc.upstream ≡ some target
        → rc.upstream_socks5_proxy ≢ []
        → parse_url rc.upstream_socks5_proxy ≡ some url
        → has_dialer url ≡ false
        → Refuses i rc (no_socks5_dialer i)

  -- The entry of a route that is usable.
  pub record Serves (rc : RouteConfig) (p : Proxied) : Type 0 where
    pub same : p.entry.config ≡ rc
    pub parsed : parse_url rc.upstream ≡ some p.entry.target
    pub reaches : Reaches rc p.transport
    pub settings : HasSettings rc p.transport

  -- The routes from `i` on give these entries, in order, or the error of the first one that is not
  -- usable.
  pub data Builds : ℕ → List RouteConfig → RouterError ⊎ List Proxied → Type 0 where
    done : {i : ℕ} → Builds i [] (inr [])
    next :
        {i : ℕ} {rc : RouteConfig} {routes : List RouteConfig} {p : Proxied} {ps : List Proxied}
        → Serves rc p
        → Builds (suc i) routes (inr ps)
        → Builds i (rc ∷ routes) (inr (p ∷ ps))
    later :
        {i : ℕ} {rc : RouteConfig} {routes : List RouteConfig} {p : Proxied} {e : RouterError}
        → Serves rc p
        → Builds (suc i) routes (inl e)
        → Builds i (rc ∷ routes) (inl e)
    refused :
        {i : ℕ} {rc : RouteConfig} {routes : List RouteConfig} {e : RouterError}
        → Refuses i rc e
        → Builds i (rc ∷ routes) (inl e)

  -- An entry or its error.
  abbrev Either : ℕ → RouteConfig → RouterError ⊎ Proxied → Type 0
  Either i rc (inl e) = Refuses i rc e
  Either i rc (inr p) = Serves rc p

  abbrev Tunnels : ℕ → RouteConfig → RouterError ⊎ Transport → Type 0
  Tunnels i rc (inl e) = (target : Url) → parse_url rc.upstream ≡ some target → Refuses i rc e
  Tunnels i rc (inr t) = Reaches rc t × HasSettings rc t

  upstream_tls_config_iff :
      (verify : Option Bool) → (upstream_tls_config verify ≡ true) ↔ (verify ≡ some false)
  unfolding upstream_tls_config
  upstream_tls_config_iff none = (λ e. absurd (cc e), λ e. absurd (cc e))
  upstream_tls_config_iff (some true) =
      (λ e. absurd (cc e), λ e. absurd (let b : true ≡ false = cc in cc b))
  upstream_tls_config_iff (some false) = (λ e. refl, λ e. refl)

  custom_transport-HasSettings : (rc : RouteConfig) → HasSettings rc (custom_transport rc)
  unfolding custom_transport
  custom_transport-HasSettings rc = record {
    http2 = refl;
    idle_conns = refl;
    idle_timeout = refl;
    handshake_timeout = refl;
    continue_timeout = refl;
    verifies = upstream_tls_config_iff rc.verify_ssl;
  }

  tunneled-HasSettings :
      (url : Url) (rc : RouteConfig) → HasSettings rc (tunneled url (custom_transport rc))
  unfolding custom_transport
  tunneled-HasSettings url rc = record {
    http2 = refl;
    idle_conns = refl;
    idle_timeout = refl;
    handshake_timeout = refl;
    continue_timeout = refl;
    verifies = upstream_tls_config_iff rc.verify_ssl;
  }

  socks5_transport-Tunnels : (i : ℕ) (rc : RouteConfig) → Tunnels i rc (socks5_transport lib i rc)
  unfolding socks5_transport custom_transport
  socks5_transport-Tunnels i rc =
      on_branches (Tunnels i rc) (is_empty rc.upstream_socks5_proxy) _ _
        (λ e. (bare (is_empty-eq _ e) refl refl, custom_transport-HasSettings rc))
        λ set.
          on_option (Tunnels i rc) (parse_url rc.upstream_socks5_proxy) _ _
            (λ e target parsed. bad_proxy target parsed (filled _ set) e)
            λ url e.
              on_branches (Tunnels i rc) (has_dialer url) _ _
                (λ d. (by_proxy url (filled _ set) e d refl refl, tunneled-HasSettings url rc))
                (λ d target parsed. bad_dialer target url parsed (filled _ set) e d)

  route_entry-Either : (i : ℕ) (rc : RouteConfig) → Either i rc (route_entry lib i rc)
  unfolding route_entry
  route_entry-Either i rc =
      on_option (Either i rc) (parse_url rc.upstream) _ _ (λ e. bad_upstream e)
        λ target parsed.
          onward target parsed (socks5_transport lib i rc) (socks5_transport-Tunnels i rc)
    where
      onward :
          (target : Url)
          → parse_url rc.upstream ≡ some target
          → (t : RouterError ⊎ Transport) → Tunnels i rc t
          → Either i rc (elim t [
            | inl e ↦ inl e
            | inr t ↦
                inr (record { entry = record { config = rc; target = target }; transport = t })
          ])
      onward target parsed (inl e) r = r target parsed
      onward target parsed (inr t) r = record {
        same = refl;
        parsed = parsed;
        reaches = r.0;
        settings = r.1;
      }

  route_entries-Builds :
      (i : ℕ) (routes : List RouteConfig) → Builds i routes (route_entries lib i routes)
  unfolding route_entries
  route_entries-Builds i [] = done
  route_entries-Builds i (rc ∷ routes) =
      both (route_entry lib i rc) (route_entries lib (suc i) routes) (route_entry-Either i rc)
        (route_entries-Builds (suc i) routes)
    where
      both :
          (p : RouterError ⊎ Proxied) (ps : RouterError ⊎ List Proxied)
          → Either i rc p
          → Builds (suc i) routes ps
          → Builds i (rc ∷ routes) (and_then p ps)
      both (inl e) ps r b = refused r
      both (inr p) (inl e) r b = later r b
      both (inr p) (inr ps) r b = next r b

  -- What `NewProxyRouter` returns for the routes.
  abbrev pub IsBuilt :
      Bytes → Bytes → List RouteConfig → RouterError ⊎ (Router × List Proxied) → Type 0
  IsBuilt name protocol routes (inl e) = Builds 0 routes (inl e)
  IsBuilt name protocol routes (inr (r, ps)) =
      Builds 0 routes (inr ps)
      × ((r.listener_name ≡ name)
          × ((r.protocol ≡ protocol) × ((r.routes ≡ entries_of ps) × (r.has_base_ctx ≡ true))))

  -- For every listener, `new_proxy_router` gives a router with one entry for each route, in their order:
  -- the entry has the route's settings and its parsed upstream, and its transport has the timeouts and
  -- limits of the route, leaves certificates unverified exactly where the route says so, and dials
  -- directly where no SOCKS5 proxy is set, and else only through that proxy, with no proxy of the
  -- environment. It fails exactly where a route cannot be used, with the index and the reason of the
  -- first such route: the upstream or the SOCKS5 address does not parse, or there is no dialer for it.
  pub new_proxy_router-IsBuilt :
      (listener_name protocol : Bytes) (routes : List RouteConfig)
      → IsBuilt listener_name protocol routes (new_proxy_router lib listener_name protocol routes)
  unfolding new_proxy_router
  new_proxy_router-IsBuilt name protocol routes =
      wrap (route_entries lib 0 routes) (route_entries-Builds 0 routes)
    where
      wrap :
          (ps : RouterError ⊎ List Proxied)
          → Builds 0 routes ps
          → IsBuilt name protocol routes (elim ps [
            | inl e ↦ inl e
            | inr ps ↦ inr (
              record {
                listener_name = name;
                protocol = protocol;
                routes = entries_of ps;
                has_base_ctx = true;
              },
              ps,
            )
          ])
      wrap (inl e) b = b
      wrap (inr ps) b = (b, (refl, (refl, (refl, refl))))
