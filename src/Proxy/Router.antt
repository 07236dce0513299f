-- ===== src/Proxy/Router.antt =====
-- proxy/reverse_proxy.go: `Router.ServeHTTP`, which gives a request to the route with the longest
-- path prefix among those whose host and prefix match.
pub mod Best
use edged.Base.{
  ℕ, Bool, true, false, Option, none, some, List, [], ◌∷◌, if◌then◌else◌, length, Bytes, normalize,
  before_byte, has_prefix,
}
use edged.Base.Int.{ℤ, pos, negsuc, ltb_ℤ}
use edged.Config.{RouteConfig}
use edged.Proxy.Hosts.{match_host_shared}

-- The parts of a `url.URL` that the program uses.
pub record Url : Type 0 where
  pub scheme : Bytes
  pub host : Bytes
  pub path : Bytes

-- An entry of the router; its reverse proxy is given by the settings and the target.
pub record RouteEntry : Type 0 where
  pub config : RouteConfig
  pub target : Url

-- The variables `bestMatch` and `bestPrefixLen`.
pub record Search : Type 0 where
  pub best_match : Option RouteEntry
  pub best_prefix_len : ℤ

-- One round of the loop.
unfoldable pub consider : Bytes → Bytes → Search → RouteEntry → Search
consider host path s entry =
    if match_host_shared host entry.config.host
    then (if has_prefix path entry.config.path_prefix
        then (let prefix_len = pos (length entry.config.path_prefix) in
            if ltb_ℤ s.best_prefix_len prefix_len
            then record { best_match = some entry; best_prefix_len = prefix_len }
            else s)
        else s)
    else s

unfoldable pub search_routes : Bytes → Bytes → Search → List RouteEntry → Search
search_routes host path s [] = s
search_routes host path s (entry ∷ routes) =
    search_routes host path (consider host path s entry) routes

-- `if idx := strings.Index(host, ":"); idx != -1 { host = host[:idx] }`
unfoldable pub cut_port : Bytes → Bytes
unfolding before_byte
cut_port host = elim (before_byte b':' host) [ some name ↦ name | none ↦ host ]

-- What a request is tied to: the server's lifetime, if the router has one, and a timeout.
pub record RequestContext : Type 0 where
  pub tied_to_server : Bool
  pub timeout : Option ℤ

pub data Response : Type 0 where
  not_found : Bytes → Response
  proxied : RouteEntry → RequestContext → Response

pub record Router : Type 0 where
  pub listener_name : Bytes
  pub protocol : Bytes
  pub routes : List RouteEntry
  pub has_base_ctx : Bool

abbrev pub start_search : Search
start_search = record { best_match = none; best_prefix_len = negsuc 0 }

unfoldable pub derive_context : Router → RequestContext
derive_context r = record { tied_to_server = r.has_base_ctx; timeout = none }

-- The part of `ServeHTTP` behind the loop.
unfoldable pub respond : Router → Bytes → Option RouteEntry → Response
unfolding derive_context
respond r host none = not_found host
respond r host (some entry) =
    let ctx = derive_context r in
    proxied entry (
      if ltb_ℤ (pos 0) entry.config.timeout
      then record ctx { timeout = some entry.config.timeout }
      else ctx)

unfoldable pub serve_http : Router → Bytes → Bytes → Response
serve_http r request_host path =
    let host = normalize (cut_port request_host) in
    respond r host (search_routes host path start_search r.routes).best_match
