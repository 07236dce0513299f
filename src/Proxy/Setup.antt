-- ===== src/Proxy/Setup.antt =====
-- proxy/reverse_proxy.go: `NewProxyRouter`, which parses the settings of each route and makes its
-- transport. Packages net/url and golang.org/x/net/proxy are a parameter.
pub mod Built
use edged.Base.{
  ℕ, suc, Bool, true, false, Option, none, some, List, [], ◌∷◌, ◌++◌, ◌⊎◌, inl, inr, if◌then◌else◌,
  is_empty, Bytes,
}
use edged.Base.Int.{ℤ}
use edged.Config.{RouteConfig}
use edged.Proxy.Router.{Url, RouteEntry, Router}

pub record UrlLib : Type 0 where
  -- `url.Parse`
  pub parse_url : Bytes → Option Url
  -- `proxy.FromURL` gives a dialer
  pub has_dialer : Url → Bool

-- `DialContext` of a transport: a `net.Dialer`, or what `proxy.FromURL` gives.
pub data Dialing : Type 0 where
  directly : (timeout keepalive : ℤ) → Dialing
  through_socks5 : Url → Dialing

pub record Transport : Type 0 where
  -- `Proxy: http.ProxyFromEnvironment`, or nil
  pub proxy_from_environment : Bool
  pub dial_context : Dialing
  pub force_attempt_http2 : Bool
  pub max_idle_conns : ℤ
  pub idle_conn_timeout : ℤ
  pub tls_handshake_timeout : ℤ
  pub expect_continue_timeout : ℤ
  -- `TLSClientConfig` with `InsecureSkipVerify`, or nil
  pub insecure_skip_verify : Bool

pub data RouterError : Type 0 where
  invalid_upstream invalid_socks5_proxy no_socks5_dialer : ℕ → RouterError

-- A `routeEntry`; its reverse proxy has the transport.
pub record Proxied : Type 0 where
  pub entry : RouteEntry
  pub transport : Transport

unfoldable pub upstream_tls_config : Option Bool → Bool
upstream_tls_config none = false
upstream_tls_config (some true) = false
upstream_tls_config (some false) = true

-- The transport, before a SOCKS5 proxy is set.
unfoldable pub custom_transport : RouteConfig → Transport
custom_transport rc = record {
  proxy_from_environment = true;
  dial_context = directly rc.dialer_timeout rc.dialer_keepalive;
  force_attempt_http2 = rc.force_attempt_http2;
  max_idle_conns = rc.max_idle_conns;
  idle_conn_timeout = rc.idle_conn_timeout;
  tls_handshake_timeout = rc.tls_handshake_timeout;
  expect_continue_timeout = rc.expect_continue_timeout;
  insecure_skip_verify = upstream_tls_config rc.verify_ssl;
}

abbrev pub tunneled : Url → Transport → Transport
tunneled proxy_url t = record t {
  dial_context = through_socks5 proxy_url;
  proxy_from_environment = false;
}

abbrev pub and_then :
    RouterError ⊎ Proxied → RouterError ⊎ List Proxied → RouterError ⊎ List Proxied
and_then (inl e) rest = inl e
and_then (inr p) (inl e) = inl e
and_then (inr p) (inr ps) = inr (p ∷ ps)

abbrev pub entries_of : List Proxied → List RouteEntry
entries_of [] = []
entries_of (p ∷ ps) = p.entry ∷ entries_of ps

module _ (lib : UrlLib) where
  open lib use {parse_url, has_dialer}

  -- The part of the loop's body on `upstream_socks5_proxy`.
  unfoldable pub socks5_transport : ℕ → RouteConfig → RouterError ⊎ Transport
  socks5_transport i rc =
      if is_empty rc.upstream_socks5_proxy
      then inr (custom_transport rc)
      else elim (parse_url rc.upstream_socks5_proxy) [
        | none ↦ inl (invalid_socks5_proxy i)
        | some proxy_url ↦
            if has_dialer proxy_url
            then inr (tunneled proxy_url (custom_transport rc))
            else inl (no_socks5_dialer i)
      ]

  -- The loop's body.
  unfoldable pub route_entry : ℕ → RouteConfig → RouterError ⊎ Proxied
  route_entry i rc = elim (parse_url rc.upstream) [
    | none ↦ inl (invalid_upstream i)
    | some target_url ↦ elim (socks5_transport i rc) [
      | inl e ↦ inl e
      | inr t ↦ inr (record { entry = record { config = rc; target = target_url }; transport = t })
    ]
  ]

  -- The loop, from route `i` on.
  unfoldable pub route_entries : ℕ → List RouteConfig → RouterError ⊎ List Proxied
  route_entries i [] = inr []
  route_entries i (rc ∷ routes) = and_then (route_entry i rc) (route_entries (suc i) routes)

  -- The router, and the transports of its routes.
  unfoldable pub new_proxy_router :
      Bytes → Bytes → List RouteConfig → RouterError ⊎ (Router × List Proxied)
  new_proxy_router listener_name protocol routes = elim (route_entries 0 routes) [
    | inl e ↦ inl e
    | inr ps ↦ inr (
      record {
        listener_name = listener_name;
        protocol = protocol;
        routes = entries_of ps;
        has_base_ctx = true;
      },
      ps,
    )
  ]
