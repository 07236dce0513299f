-- ===== src/Proxy/Tests.antt =====
-- The proxy on concrete routes and requests.
use edged.Base.{
  List, [], none, false, true, ◌≡◌, refl, ◌↔◌, ◌⊎◌, inr, none, some, [], ◌∷◌, Bytes, codes,
  normalize, All, Lacks, if◌then◌else◌, has_prefix, is_empty, before_byte, arith,
}
use edged.Config.{RouteConfig}
use edged.Config.Samples.{sample_route}
use edged.Proxy.Hosts.{match_host_shared, match_route_by_sni}
use edged.Proxy.Hosts.Laws.{
  Covers, FirstOrNone, match_host_shared_iff, match_route_by_sni-FirstOrNone,
}
use edged.Proxy.Router.{Url, Router}
use edged.Proxy.ClientIp
use edged.Proxy.ClientIp.{NetLib, Incoming, comma}
use edged.Proxy.ClientIp.Trust.{
  IsConsistent, Believed, parse_trusted-transparent, resolve_client_ip-Believed,
}
use edged.Base.Int.{pos}
use edged.Proxy.Copying.{
  Round, Copied, finished, timeout, eof, copy_context, set_deadline, after_read, write_chunk,
}
use edged.Proxy.Copying.Delivery.{Accounts, copy_context-Delivers}
use edged.Proxy.Director.{Outgoing, direct, join_path}
use edged.Proxy.Director.Headers.{Forwards, direct-Forwards}
use edged.Proxy.Director.Paths.{rooted, direct_strip, direct_keeps_prefix}

abbrev wild_route : RouteConfig
wild_route = sample_route (codes "*.example.org") (codes "/")

abbrev api_route : RouteConfig
api_route = sample_route (codes "api.example.org") (codes "/v1")

abbrev bare_target : Url
bare_target = record { scheme = codes "http"; host = codes "10.0.0.7"; path = codes "/" }

abbrev deep_target : Url
deep_target = record { scheme = codes "http"; host = codes "10.0.0.7"; path = codes "/app" }

abbrev sample_router : Router
sample_router = record {
  listener_name = codes "web";
  protocol = codes "https";
  routes =
      record { config = wild_route; target = bare_target }
      ∷ record { config = api_route; target = deep_target }
      ∷ [];
  has_base_ctx = true;
}

-- Addresses and networks as texts; a network holds the addresses that begin with it.
abbrev text_net : NetLib
text_net = record {
  Ip = Bytes;
  IpNet = Bytes;
  parse_ip = some;
  parse_cidr = λ s. if is_empty s then none else some s;
  contains = λ net ip. has_prefix ip net;
  split_host = before_byte b':';
}

abbrev incoming : Incoming
incoming = record {
  remote_addr = codes "10.1.2.3:5000";
  header = (codes "CF-Connecting-IP", codes "203.0.113.9") ∷ [];
  host = codes "api.example.org";
  path = codes "/v1/users";
}

abbrev outgoing : Outgoing
outgoing = record { scheme = []; url_host = []; path = codes "/v1/users"; header = []; host = [] }

match_host_shared_iff_example :
    (match_host_shared (codes "a.example.org") (codes " *.Example.org") ≡ true)
    ↔ Covers (codes "a.example.org") (normalize (codes " *.Example.org"))
match_host_shared_iff_example =
    match_host_shared_iff (codes "a.example.org") (codes " *.Example.org")

match_route_by_sni-FirstOrNone_example :
    FirstOrNone
      (normalize (codes "API.example.org"))
      (wild_route ∷ api_route ∷ [])
      (match_route_by_sni (codes "API.example.org") (wild_route ∷ api_route ∷ []))
match_route_by_sni-FirstOrNone_example =
    match_route_by_sni-FirstOrNone (codes "API.example.org") (wild_route ∷ api_route ∷ [])

networks-Lacks : All (Lacks comma) api_route.trusted_edge_proxy_ips
networks-Lacks = ((refl, (refl, (refl, tt))), ((refl, (refl, (refl, (refl, tt)))), tt))

parse_trusted-transparent_example :
    ((ClientIp.parse_trusted_edge_proxy_nets text_net [] api_route.trusted_edge_proxy_ips).0
      ≡ ClientIp.parse_nets text_net api_route.trusted_edge_proxy_ips)
    × IsConsistent text_net
        (ClientIp.parse_trusted_edge_proxy_nets text_net [] api_route.trusted_edge_proxy_ips).1
parse_trusted-transparent_example =
    parse_trusted-transparent text_net [] api_route.trusted_edge_proxy_ips tt networks-Lacks

resolve_client_ip-Believed_example :
    ((ClientIp.resolve_client_ip text_net [] incoming api_route).0
      ≡ ClientIp.connecting_ip text_net incoming)
    ⊎ Believed text_net incoming api_route
        (ClientIp.resolve_client_ip text_net [] incoming api_route).0
resolve_client_ip-Believed_example =
    resolve_client_ip-Believed text_net [] incoming api_route tt networks-Lacks

direct-Forwards_example :
    Forwards
      (codes "https")
      (codes "203.0.113.9")
      incoming
      api_route
      (direct (codes "https") bare_target api_route (codes "203.0.113.9") incoming outgoing)
direct-Forwards_example =
    direct-Forwards (codes "https") bare_target api_route (codes "203.0.113.9") incoming outgoing

direct_strip_example :
    (direct (codes "https") bare_target api_route (codes "203.0.113.9") incoming outgoing).path
    ≡ rooted (codes "/users")
direct_strip_example =
    direct_strip (codes "https") bare_target api_route (codes "203.0.113.9") incoming outgoing
      (codes "v1") (codes "/users") refl refl (λ e. cc) (inr refl) refl

direct_keeps_prefix_example :
    (direct (codes "https") deep_target api_route (codes "203.0.113.9") incoming outgoing).path
    ≡ join_path (codes "/app") (codes "/v1/users")
direct_keeps_prefix_example =
    direct_keeps_prefix (codes "https") deep_target api_route (codes "203.0.113.9") incoming
      outgoing b'a' b'v' (codes "pp") (codes "1") refl refl refl (omega arith)

-- Two reads with a timeout between them, and the end of the stream.
abbrev stream : List Round
stream =
    record { done = false; chunk = codes "ab"; read_error = none; write_error = none }
    ∷ record { done = false; chunk = []; read_error = some timeout; write_error = none }
    ∷ record { done = false; chunk = codes "c"; read_error = some eof; write_error = none }
    ∷ []

abbrev nothing_copied : Copied
nothing_copied = record { written = []; deadlines = 0 }

stream_copied :
    copy_context true (pos 30) stream nothing_copied
    ≡ (finished, record { written = codes "abc"; deadlines = 3 })
unfolding copy_context set_deadline after_read write_chunk
stream_copied = refl

copy_context-Delivers_example :
    Accounts stream [] (copy_context true (pos 30) stream nothing_copied)
copy_context-Delivers_example = copy_context-Delivers true (pos 30) stream nothing_copied
