-- ===== src/Config/Types.antt =====
-- config/config.go: the structs of the configuration. Durations are numbers of nanoseconds, with a
-- sign.
use edged.Base.{Bool, Option, List, Bytes}
use edged.Base.Int.{ℤ}

pub record RouteConfig : Type 0 where
  pub host : Bytes
  pub path_prefix : Bytes
  pub upstream : Bytes
  pub verify_ssl : Option Bool
  pub strip_prefix : Bool
  pub no_tls_termination : Bool
  pub timeout : ℤ
  pub custom_headers : List (Bytes × Bytes)
  pub debug : Bool
  pub upstream_socks5_proxy : Bytes
  pub dialer_timeout : ℤ
  pub dialer_keepalive : ℤ
  pub force_attempt_http2 : Bool
  pub max_idle_conns : ℤ
  pub idle_conn_timeout : ℤ
  pub tls_handshake_timeout : ℤ
  pub expect_continue_timeout : ℤ
  pub passthrough_idle_timeout : ℤ
  pub proxy_protocol : Bytes
  pub real_ip_header : Bytes
  pub trusted_edge_proxy_ips : List Bytes

pub record TlsConfig : Type 0 where
  pub enabled : Bool
  pub use_acme : Bool
  pub domains : List Bytes
  pub cert_file : Bytes
  pub key_file : Bytes

pub record ListenerConfig : Type 0 where
  pub name : Bytes
  pub address : Bytes
  pub protocol : Bytes
  pub redirect_to_https : Bool
  pub upstream_socks5_proxy : Bytes
  pub tls : TlsConfig
  pub routes : List RouteConfig
  pub proxy_protocol : Bytes
  pub read_timeout : ℤ
  pub write_timeout : ℤ
  pub idle_timeout : ℤ

pub record ArvanCloudConfig : Type 0 where
  pub api_key : Bytes
  pub propagation_timeout : ℤ
  pub polling_interval : ℤ
  pub ttl : ℤ

pub record CloudflareConfig : Type 0 where
  pub api_token : Bytes
  pub zone_token : Bytes
  pub auth_email : Bytes
  pub auth_key : Bytes
  pub propagation_timeout : ℤ
  pub polling_interval : ℤ
  pub ttl : ℤ

pub record DnsProviderConfig : Type 0 where
  pub match : List Bytes
  pub name : Bytes
  pub use_socks5 : Bool
  pub recursive_nameservers : List Bytes
  pub arvan_cloud : ArvanCloudConfig
  pub cloudflare : CloudflareConfig

pub record AcmeConfig : Type 0 where
  pub email : Bytes
  pub directory_url : Bytes
  pub verify_ssl : Option Bool
  pub socks5_proxy : Bytes
  pub storage_path : Bytes
  pub renew_before_days : ℤ
  pub check_interval_hours : ℤ
  pub client_timeout : ℤ
  pub dns_providers : List DnsProviderConfig

pub record Config : Type 0 where
  pub default_upstream_socks5_proxy : Bytes
  pub listeners : List ListenerConfig
  pub acme : AcmeConfig
