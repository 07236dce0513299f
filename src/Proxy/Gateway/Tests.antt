-- ===== src/Proxy/Gateway/Tests.antt =====
-- Three requests through the gateway: one that no route serves, one that is answered, and one whose
-- upstream cannot be reached.
use edged.Base.{
  ℕ, true, ◌≡◌, refl, none, some, List, [], ◌∷◌, if◌then◌else◌, is_empty, Bytes, codes, All,
  has_prefix, before_byte, equal,
}
use edged.Config.Samples.{sample_route}
use edged.Proxy.Router.{Router}
use edged.Proxy.ClientIp.{NetLib, Incoming}
use edged.Proxy.Gateway.{Exchange, GatewayLib, serve_requests}
use edged.Proxy.Gateway.Exchanged.{LacksComma, AllExchanged, serve_requests-AllExchanged}

abbrev networks : NetLib
networks = record {
  Ip = Bytes;
  IpNet = Bytes;
  parse_ip = some;
  parse_cidr = λ s. if is_empty s then none else some s;
  contains = λ net ip. has_prefix ip net;
  split_host = before_byte b':';
}

-- The upstream answers what is sent to the host `up`, and nothing else.
abbrev gateway : GatewayLib
gateway = record {
  net = networks;
  out_of = λ req. record {
    scheme = [];
    url_host = [];
    path = req.path;
    header = req.header;
    host = req.host;
  };
  forward = λ e ctx out.
      if equal out.url_host (codes "up")
      then some (record { status = 200; header = []; body = out.path })
      else none;
  http_error = λ text status. record { status = status; header = []; body = text };
  marshal = λ fields. some [];
}

abbrev router : Router
router = record {
  listener_name = codes "web";
  protocol = codes "https";
  routes =
      record {
        config = sample_route (codes "a.example.org") (codes "/");
        target = record { scheme = codes "http"; host = codes "up"; path = [] };
      }
      ∷ record {
        config = sample_route (codes "a.example.org") (codes "/down");
        target = record { scheme = codes "http"; host = codes "down"; path = [] };
      }
      ∷ [];
  has_base_ctx = true;
}

abbrev asking : Bytes → Bytes → Incoming
asking host path = record {
  remote_addr = codes "10.1.2.3:5000";
  header = (codes "CF-Connecting-IP", codes "203.0.113.9") ∷ [];
  host = host;
  path = path;
}

abbrev requests : List Incoming
requests =
    asking (codes "b.example.org") (codes "/")
    ∷ asking (codes "A.example.org:443") (codes "/x")
    ∷ asking (codes "a.example.org") (codes "/down")
    ∷ []

commas : All LacksComma router.routes
commas = (
  ((refl, (refl, (refl, tt))), ((refl, (refl, (refl, (refl, tt)))), tt)),
  (((refl, (refl, (refl, tt))), ((refl, (refl, (refl, (refl, tt)))), tt)), tt),
)

serve_requests-AllExchanged_example :
    AllExchanged gateway router requests (serve_requests gateway router [] requests)
serve_requests-AllExchanged_example =
    serve_requests-AllExchanged gateway router [] requests tt commas

abbrev statuses : List Exchange → List ℕ
statuses [] = []
statuses (x ∷ xs) = x.answer.status ∷ statuses xs

three_answers : statuses (serve_requests gateway router [] requests) ≡ 404 ∷ 200 ∷ 502 ∷ []
unfolding serve_requests edged.Proxy.Gateway.handle edged.Proxy.Gateway.respond_with
    edged.Proxy.Router.serve_http edged.Proxy.Router.respond edged.Proxy.Router.search_routes
    edged.Proxy.Router.consider edged.Proxy.Hosts.match_host_shared edged.Base.normalize equal
    edged.Proxy.Router.cut_port has_prefix edged.Proxy.Gateway.proxy_request
    edged.Proxy.Gateway.answer_of edged.Proxy.Director.rewrite_request edged.Proxy.Director.direct
    edged.Proxy.Director.set_url edged.Proxy.Gateway.error_answer
three_answers = refl
