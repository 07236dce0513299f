-- ===== src/Config/Samples.antt =====
-- Settings for the tests.
use edged.Base.{true, false, none, List, [], ◌∷◌, Bytes, codes}
use edged.Base.Int.{pos}
use edged.Config.Types.{RouteConfig, ListenerConfig, DnsProviderConfig, Config}

abbrev pub sample_route : Bytes → Bytes → RouteConfig
sample_route host prefix = record {
  host = host;
  path_prefix = prefix;
  upstream = codes "http://10.0.0.7:8080";
  verify_ssl = none;
  strip_prefix = true;
  no_tls_termination = false;
  timeout = pos 30;
  custom_headers = (codes "x-real-ip", codes "hidden") ∷ [];
  debug = false;
  upstream_socks5_proxy = [];
  dialer_timeout = pos 30;
  dialer_keepalive = pos 30;
  force_attempt_http2 = true;
  max_idle_conns = pos 100;
  idle_conn_timeout = pos 90;
  tls_handshake_timeout = pos 10;
  expect_continue_timeout = pos 1;
  passthrough_idle_timeout = pos 30;
  proxy_protocol = codes "none";
  real_ip_header = codes "CF-Connecting-IP";
  trusted_edge_proxy_ips = codes "10." ∷ codes " 172" ∷ [];
}

abbrev pub sample_listener : ListenerConfig
sample_listener = record {
  name = codes "web";
  address = codes "0.0.0.0:443";
  protocol = [];
  redirect_to_https = false;
  upstream_socks5_proxy = [];
  tls = record {
    enabled = true;
    use_acme = true;
    domains = codes " *.Example.org" ∷ codes "example.org" ∷ [];
    cert_file = [];
    key_file = [];
  };
  routes = sample_route (codes "api.example.org") (codes "/v1") ∷ [];
  proxy_protocol = codes "none";
  read_timeout = pos 15;
  write_timeout = pos 60;
  idle_timeout = pos 12;
}

abbrev pub sample_provider : List Bytes → Bytes → DnsProviderConfig
sample_provider match name = record {
  match = match;
  name = name;
  use_socks5 = false;
  recursive_nameservers = [];
  arvan_cloud = record {
    api_key = codes "key";
    propagation_timeout = pos 120;
    polling_interval = pos 2;
    ttl = pos 600;
  };
  cloudflare = record {
    api_token = [];
    zone_token = [];
    auth_email = [];
    auth_key = [];
    propagation_timeout = pos 120;
    polling_interval = pos 2;
    ttl = pos 300;
  };
}

abbrev pub sample_providers : List DnsProviderConfig
sample_providers =
    sample_provider [] (codes "arvancloud")
    ∷ sample_provider (codes "*.example.org" ∷ []) (codes "cloudflare")
    ∷ []

abbrev pub sample_config : Config
sample_config = record {
  default_upstream_socks5_proxy = codes "127.0.0.1:1080";
  listeners = sample_listener ∷ [];
  acme = record {
    email = codes "ops@example.org";
    directory_url = codes "https://ca.example.org";
    verify_ssl = none;
    socks5_proxy = [];
    storage_path = codes "./store";
    renew_before_days = pos 30;
    check_interval_hours = pos 24;
    client_timeout = pos 40;
    dns_providers = sample_providers;
  };
}
