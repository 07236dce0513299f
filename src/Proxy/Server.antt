-- ===== src/Proxy/Server.antt =====
-- proxy/listener.go: `Server`, which starts and stops all listeners. A goroutine is kept with the
-- server that it runs; what the network and the disk answer for a listener stands beside it.
mod Parts
pub mod Starting
pub mod Growth
pub mod Registered
pub mod Addresses
pub mod Stopping
mod Tests
unfoldable pub use Parts.*
use edged.Base.{
  ℕ, Bool, true, false, not, ◌&&◌, Option, none, some, List, [], ◌∷◌, ◌++◌, ◌⊎◌, inl, inr,
  if◌then◌else◌, is_empty, Bytes, codes, equal, join, before_byte, map,
}
use mathlib.Core.List.{filter_map}
use edged.Base.Int.{ℤ}
use edged.Config.{RouteConfig, ListenerConfig}
use edged.Proxy.Hosts.{has_passthrough_routes, proxy_protocol_enabled}
use edged.Proxy.Router.{Router}
use edged.Proxy.Setup.{UrlLib, RouterError, Proxied, new_proxy_router}
use edged.Proxy.Passthrough.{Listener}

unfoldable pub build_tls_config : Server → ListenerConfig → Answers → StartError ⊎ Certificates
build_tls_config s l a =
    if not l.tls.enabled
    then inr no_certificates
    else if l.tls.use_acme
    then (if s.has_acme_mgr then inr acme_certificates else inl no_acme_manager)
    else if not (is_empty l.tls.cert_file) && not (is_empty l.tls.key_file)
    then (if a.loads_key_pair
        then inr (key_pair l.tls.cert_file l.tls.key_file)
        else inl static_certs_failed)
    else inr no_certificates

unfoldable pub start_tls_proxy_protocol :
    Answers → HttpServer → Certificates → Server → StartEnd × Server
start_tls_proxy_protocol a srv tls_config s =
    if a.listens
    then (started, launch s (record srv { tls_config = some tls_config }) serve_tls_proxied)
    else (failed tcp_listen_failed, s)

unfoldable pub start_http_proxy_protocol : Answers → HttpServer → Server → StartEnd × Server
start_http_proxy_protocol a srv s =
    if a.listens then (started, launch s srv serve_proxied) else (failed tcp_listen_failed, s)

-- An error is logged by `Fatal`.
abbrev pub or_fatal : StartEnd × Server → StartEnd × Server
or_fatal (started, s) = (started, s)
or_fatal (fatal, s) = (fatal, s)
or_fatal (failed e, s) = (fatal, s)

-- The part of `startHTTPSListener` behind the TLS configuration.
unfoldable pub start_https :
    ListenerConfig → Answers → HttpServer → Certificates → Server → StartEnd × Server
start_https l a srv tls_config s =
    if has_passthrough_routes l.routes
    then (started, launch_passthrough s (new_tls_pass_through_listener l srv.handler tls_config))
    else if proxy_protocol_enabled l.proxy_protocol
    then start_tls_proxy_protocol a srv tls_config s
    else (started, launch s (record srv { tls_config = some tls_config }) listen_and_serve_tls)

unfoldable pub start_https_listener :
    ListenerConfig → Answers → HttpServer → Server → StartEnd × Server
start_https_listener l a srv s = elim (build_tls_config s l a) [
  | inl e ↦ (failed e, s)
  | inr tls_config ↦ start_https l a srv tls_config s
]

unfoldable pub start_http_listener :
    ListenerConfig → Answers → HttpServer → Server → StartEnd × Server
start_http_listener l a srv s =
    if proxy_protocol_enabled l.proxy_protocol
    then or_fatal (start_http_proxy_protocol a srv s)
    else (started, launch s srv listen_and_serve)

module _ (lib : UrlLib) where
  unfoldable pub build_handler : ListenerConfig → RouterError ⊎ Handler
  build_handler l =
      if equal l.protocol (codes "http") && l.redirect_to_https
      then inr redirector
      else elim (new_proxy_router lib l.name l.protocol l.routes) [
        | inl e ↦ inl e
        | inr (r, ps) ↦ inr (proxies r ps)
      ]

  -- The body of the loop in `Start`.
  unfoldable pub start_one : ListenerConfig → Answers → Server → StartEnd × Server
  start_one l a s = elim (build_handler l) [
    | inl e ↦ (failed (router_error e), s)
    | inr handler ↦
        let srv = new_http_server l handler in
        if equal l.protocol https
        then start_https_listener l a srv s
        else start_http_listener l a srv s
  ]

  -- `Start`, which ends at the first listener that does not start.
  unfoldable pub start : List (ListenerConfig × Answers) → Server → StartEnd × Server
  start [] s = (started, s)
  start ((l, a) ∷ listeners) s =
      let (end, s1) = start_one l a s in
      let rest = start listeners s1 in
      elim end [ started ↦ rest | fatal ↦ (fatal, s1) | failed e ↦ (failed e, s1) ]

-- `GetListenersAddrs`
unfoldable pub get_listeners_addrs : Server → List Bytes
get_listeners_addrs s = map (λ srv. srv.addr) s.servers

-- The redirector's target: `uri` is `req.URL.RequestURI()`.
unfoldable pub target_url : Bytes → Bytes → Bytes
target_url host uri =
    codes "https://" ++ elim (before_byte b':' host) [ none ↦ host | some bare ↦ bare ] ++ uri

-- What `Stop` shuts down.
pub data Task : Type 0 where
  stop_http : HttpServer → Task
  stop_passthrough : TlsPassThroughListener → Task

unfoldable pub tasks : Server → List Task
tasks s = map stop_http s.servers ++ map stop_passthrough s.tls_passthrough_servers

-- The message that a goroutine of `Stop` adds; the `Shutdown` of a passthrough listener returns nil.
unfoldable pub stop_message : (HttpServer → Option Bytes) → Task → Option Bytes
stop_message shutdown (stop_passthrough p) = none
stop_message shutdown (stop_http srv) = elim (shutdown srv) [
  | none ↦ none
  | some e ↦ some (codes "server on " ++ srv.addr ++ codes " shutdown error: " ++ e)
]

-- `strings.Join(errs, "; ")`
unfoldable pub join_errors : List Bytes → Bytes
join_errors [] = []
join_errors (e ∷ []) = e
join_errors (e ∷ f ∷ errs) = e ++ codes "; " ++ join_errors (f ∷ errs)

-- `Stop`: `ended` are the tasks in the order in which their calls of `Shutdown` return.
unfoldable pub stop : (HttpServer → Option Bytes) → List Task → Option Bytes
stop shutdown ended =
    let errs = filter_map (stop_message shutdown) ended in
    if is_empty errs then none else some (codes "shutdown errors: " ++ join_errors errs)
