-- ===== src/Proxy/Server/Tests.antt =====
-- A server with three listeners.
use edged.Base.{
  ◌≡◌, refl, ◌↔◌, true, Option, none, some, List, [], ◌∷◌, Bytes, codes, All, equal, if◌then◌else◌,
}
use mathlib.Core.List.Perm
use mathlib.Core.List.{Perm}
use edged.Config.{RouteConfig, ListenerConfig}
use edged.Config.Samples.{sample_route, sample_listener}
use edged.Proxy.Hosts.{has_passthrough_routes, proxy_protocol_enabled}
use edged.Proxy.Setup.{UrlLib, new_proxy_router, route_entries, route_entry, socks5_transport}
use edged.Proxy.Setup.Built.{IsBuilt, new_proxy_router-IsBuilt}
use edged.Proxy.Server.{
  HttpServer, started, Answers, new_server, start, start_one, build_handler, start_https_listener,
  start_http_listener, start_https, build_tls_config, start_http_proxy_protocol,
  get_listeners_addrs, tasks, stop,
}
use edged.Proxy.Server.Addresses.{plain_addresses, get_listeners_addrs-start}
use edged.Proxy.Server.Stopping.{failures, report, stop-report}

abbrev urls : UrlLib
urls = record {
  parse_url = λ s. some (record { scheme = []; host = s; path = [] });
  has_dialer = λ url. true;
}

abbrev passed : RouteConfig
passed = record (sample_route (codes "db.example.org") (codes "/")) { no_tls_termination = true }

abbrev tunneled : RouteConfig
tunneled = record (sample_route (codes "*") (codes "/")) {
  upstream_socks5_proxy = codes "socks5://10.0.0.1";
}

abbrev answers : Answers
answers = record { listens = true; loads_key_pair = true }

abbrev listeners : List (ListenerConfig × Answers)
listeners =
    (record sample_listener { protocol = codes "https" }, answers)
    ∷ (
      record sample_listener {
        protocol = codes "http";
        redirect_to_https = true;
        address = codes ":80";
        proxy_protocol = codes "1";
      },
      answers,
    )
    ∷ (
      record sample_listener {
        protocol = codes "https";
        address = codes ":444";
        routes = passed ∷ [];
      },
      answers,
    )
    ∷ []

new_proxy_router-IsBuilt_example :
    IsBuilt urls
      (codes "web")
      (codes "https")
      (passed ∷ tunneled ∷ [])
      (new_proxy_router urls (codes "web") (codes "https") (passed ∷ tunneled ∷ []))
new_proxy_router-IsBuilt_example =
    new_proxy_router-IsBuilt urls (codes "web") (codes "https") (passed ∷ tunneled ∷ [])

all_start : (start urls listeners (new_server true)).0 ≡ started
unfolding start start_one build_handler new_proxy_router route_entries route_entry socks5_transport
    start_https_listener start_https start_http_listener build_tls_config start_http_proxy_protocol
    new_server equal has_passthrough_routes proxy_protocol_enabled
all_start = refl

get_listeners_addrs-start_example :
    get_listeners_addrs (start urls listeners (new_server true)).1 ≡ plain_addresses listeners
get_listeners_addrs-start_example = get_listeners_addrs-start urls true listeners all_start

-- The server on port 80 does not shut down.
abbrev shutdown : HttpServer → Option Bytes
shutdown srv =
    if equal srv.addr (codes ":80") then some (codes "context deadline exceeded") else none

stop-report_example :
    ((errs : List Bytes) × Perm
        (failures shutdown (start urls listeners (new_server true)).1.servers)
        errs
      × (stop shutdown (tasks (start urls listeners (new_server true)).1) ≡ report errs))
    × ((stop shutdown (tasks (start urls listeners (new_server true)).1) ≡ none)
        ↔ All (λ srv. shutdown srv ≡ none) (start urls listeners (new_server true)).1.servers)
stop-report_example =
    stop-report (start urls listeners (new_server true)).1 shutdown
      (tasks (start urls listeners (new_server true)).1) Perm.rfl
