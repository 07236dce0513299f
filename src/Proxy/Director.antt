-- ===== src/Proxy/Director.antt =====
-- proxy/reverse_proxy.go: the function that `createDirector` returns, which rewrites a request for
-- its upstream, for requests whose path has one spelling (`RawPath` is empty).
pub mod Headers
pub mod Paths
use edged.Base.{
  ℕ, Bool, true, false, not, ◌&&◌, ◌||◌, List, [], ◌∷◌, ◌++◌, if◌then◌else◌, is_empty, drop, Bytes,
  codes, equal, has_prefix, has_suffix, length, Header, header_get, header_set,
}
use edged.Config.{RouteConfig}
use edged.Proxy.Router.{Url}
use edged.Proxy.ClientIp.{NetLib, Incoming, Cache, resolve_client_ip}

-- The request that is sent upstream.
pub record Outgoing : Type 0 where
  pub scheme : Bytes
  pub url_host : Bytes
  pub path : Bytes
  pub header : Header
  pub host : Bytes

abbrev pub slash : Bytes
slash = b'/' ∷ []

-- How `ProxyRequest.SetURL` of net/http/httputil joins two paths.
unfoldable pub join_path : Bytes → Bytes → Bytes
join_path a b =
    if has_suffix a slash && has_prefix b slash
    then a ++ drop 1 b
    else if has_suffix a slash || has_prefix b slash
    then a ++ b
    else a ++ b'/' ∷ b

-- `pr.SetURL(target)`
unfoldable pub set_url : Url → Outgoing → Outgoing
unfolding join_path
set_url target out = record out {
  scheme = target.scheme;
  url_host = target.host;
  path = join_path target.path out.path;
  host = [];
}

abbrev pub x_forwarded_proto : Bytes
x_forwarded_proto = codes "X-Forwarded-Proto"

abbrev pub x_forwarded_for : Bytes
x_forwarded_for = codes "X-Forwarded-For"

abbrev pub x_real_ip : Bytes
x_real_ip = codes "X-Real-IP"

unfoldable pub forwarded_for : Bytes → Bytes → Bytes
forwarded_for prior client_ip =
    if is_empty prior then client_ip else prior ++ (codes ", " ++ client_ip)

-- The loop over `rc.CustomHeaders`, in the order in which the map is walked.
unfoldable pub set_headers : Header → List (Bytes × Bytes) → Header
set_headers h [] = h
set_headers h ((k, v) ∷ custom) = set_headers (header_set h k v) custom

unfoldable pub forward_headers : Bytes → Bytes → Header → RouteConfig → Header → Header
unfolding forwarded_for
forward_headers protocol client_ip incoming rc h =
    let h1 = header_set h x_forwarded_proto protocol in
    let h2 =
      header_set h1 x_forwarded_for
        (forwarded_for (header_get incoming x_forwarded_for) client_ip) in
    let h3 = header_set h2 x_real_ip client_ip in set_headers h3 rc.custom_headers

-- `strings.TrimPrefix`
unfoldable pub trim_prefix : Bytes → Bytes → Bytes
trim_prefix s p = if has_prefix s p then drop (length p) s else s

unfoldable pub strip_path : RouteConfig → Bytes → Bytes
unfolding trim_prefix
strip_path rc path =
    if rc.strip_prefix && (not (equal rc.path_prefix slash) && not (is_empty rc.path_prefix))
    then (let path' = trim_prefix path rc.path_prefix in
        if not (has_prefix path' slash) then b'/' ∷ path' else path')
    else path

-- The rewriting, for the address that `resolveClientIP` gives.
unfoldable pub direct : Bytes → Url → RouteConfig → Bytes → Incoming → Outgoing → Outgoing
direct protocol target rc client_ip incoming out =
    let out1 = set_url target out in
    record out1 {
      header = forward_headers protocol client_ip incoming.header rc out1.header;
      path = strip_path rc out1.path;
      host = incoming.host;
    }

module _ (lib : NetLib) where
  -- The function that `createDirector` returns, with the cache of networks behind it.
  unfoldable pub rewrite_request :
      Bytes → Url → RouteConfig → Cache lib → Incoming → Outgoing → Outgoing × Cache lib
  rewrite_request protocol target rc cache incoming out =
      let (client_ip, cache') = resolve_client_ip lib cache incoming rc in
      (direct protocol target rc client_ip incoming out, cache')
