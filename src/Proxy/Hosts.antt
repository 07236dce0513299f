-- ===== src/Proxy/Hosts.antt =====
-- proxy/tcp_proxy.go: the tests on host names and PROXY protocol settings.
pub mod Laws
use edged.Base.{
  ℕ, Bool, true, false, ◌||◌, Option, none, some, List, [], ◌∷◌, ◌==◌, if◌then◌else◌, is_empty,
  drop, Bytes, codes, equal, normalize, has_prefix, has_suffix,
}
use edged.Config.{RouteConfig}

abbrev pub star : Bytes
star = b'*' ∷ []

-- "*."
abbrev pub star_dot : Bytes
star_dot = b'*' ∷ b'.' ∷ []

unfoldable pub match_host_shared : Bytes → Bytes → Bool
match_host_shared request_host route_host =
    let host = normalize route_host in
    if is_empty host || (equal host star || equal request_host host)
    then true
    else if has_prefix host star_dot
    then (if has_suffix request_host (drop 1 host) then true else false)
    else false

-- The loop of `matchRouteBySNI`: the first route whose host matches.
unfoldable pub find_route : Bytes → List RouteConfig → Option RouteConfig
find_route host [] = none
find_route host (r ∷ routes) =
    if match_host_shared host r.host then some r else find_route host routes

unfoldable pub match_route_by_sni : Bytes → List RouteConfig → Option RouteConfig
match_route_by_sni host routes = find_route (normalize host) routes

unfoldable pub has_passthrough_routes : List RouteConfig → Bool
has_passthrough_routes [] = false
has_passthrough_routes (r ∷ routes) =
    if r.no_tls_termination then true else has_passthrough_routes routes

unfoldable pub proxy_protocol_enabled : Bytes → Bool
unfolding equal
proxy_protocol_enabled pp = equal pp (codes "1") || equal pp (codes "2")
