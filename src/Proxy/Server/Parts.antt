-- ===== src/Proxy/Server/Parts.antt =====
-- proxy/listener.go: the servers and goroutines that a `Server` keeps, and how one is added.
use edged.Base.{Bool, true, Option, none, List, [], ◌∷◌, ◌++◌, Bytes, codes}
use edged.Base.Int.{ℤ}
use edged.Config.{ListenerConfig}
use edged.Proxy.Router.{Router}
use edged.Proxy.Setup.{RouterError, Proxied}
use edged.Proxy.Passthrough.{Listener}

-- `http.Handler`: the redirector, or a router with the proxies of its routes.
pub data Handler : Type 0 where
  redirector : Handler
  proxies : Router → List Proxied → Handler

-- Where a `tls.Config` takes its certificates from.
pub data Certificates : Type 0 where
  no_certificates acme_certificates : Certificates
  key_pair : Bytes → Bytes → Certificates

-- An `http.Server`; `tls_config` is `none` for nil.
pub record HttpServer : Type 0 where
  pub addr : Bytes
  pub handler : Handler
  pub tls_config : Option Certificates
  pub read_timeout : ℤ
  pub write_timeout : ℤ
  pub idle_timeout : ℤ

-- A `TLSPassThroughListener`; its part that connections read stands in `listener`.
pub record TlsPassThroughListener : Type 0 where
  pub listener : Listener
  pub handler : Handler
  pub tls_config : Certificates
  pub read_timeout : ℤ
  pub write_timeout : ℤ
  pub idle_timeout : ℤ

pub data Goroutine : Type 0 where
  listen_and_serve listen_and_serve_tls serve_proxied serve_tls_proxied : HttpServer → Goroutine
  serve_passthrough : TlsPassThroughListener → Goroutine

pub record Server : Type 0 where
  pub has_acme_mgr : Bool
  pub servers : List HttpServer
  pub tls_passthrough_servers : List TlsPassThroughListener
  pub goroutines : List Goroutine

pub data StartError : Type 0 where
  router_error : RouterError → StartError
  no_acme_manager static_certs_failed tcp_listen_failed : StartError

-- `fatal` is a call of `logger.Fatal`, which ends the process.
pub data StartEnd : Type 0 where
  started fatal : StartEnd
  failed : StartError → StartEnd

-- Whether `Listen` succeeds on the listener's address, and `LoadX509KeyPair` on its files.
pub record Answers : Type 0 where
  pub listens : Bool
  pub loads_key_pair : Bool

abbrev pub https : Bytes
https = codes "https"

unfoldable pub new_server : Bool → Server
new_server has_acme_mgr = record {
  has_acme_mgr = has_acme_mgr;
  servers = [];
  tls_passthrough_servers = [];
  goroutines = [];
}

abbrev pub new_http_server : ListenerConfig → Handler → HttpServer
new_http_server l handler = record {
  addr = l.address;
  handler = handler;
  tls_config = none;
  read_timeout = l.read_timeout;
  write_timeout = l.write_timeout;
  idle_timeout = l.idle_timeout;
}

abbrev pub new_tls_pass_through_listener :
    ListenerConfig → Handler → Certificates → TlsPassThroughListener
new_tls_pass_through_listener l handler tls_config = record {
  listener = record {
    address = l.address;
    routes = l.routes;
    serves = true;
    proxy_protocol = l.proxy_protocol;
  };
  handler = handler;
  tls_config = tls_config;
  read_timeout = l.read_timeout;
  write_timeout = l.write_timeout;
  idle_timeout = l.idle_timeout;
}

-- A server is appended, and its goroutine started.
abbrev pub launch : Server → HttpServer → (HttpServer → Goroutine) → Server
launch s srv run = record s {
  servers = s.servers ++ srv ∷ [];
  goroutines = s.goroutines ++ run srv ∷ [];
}

abbrev pub launch_passthrough : Server → TlsPassThroughListener → Server
launch_passthrough s p = record s {
  tls_passthrough_servers = s.tls_passthrough_servers ++ p ∷ [];
  goroutines = s.goroutines ++ serve_passthrough p ∷ [];
}
