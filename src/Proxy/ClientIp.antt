-- ===== src/Proxy/ClientIp.antt =====
-- proxy/reverse_proxy.go: the client's address, and the cache of parsed networks behind it. Package
-- net is a parameter: addresses, networks and their parsers.
pub mod Trust
use edged.Base.{
  ℕ, Bool, true, false, Option, none, some, List, [], ◌∷◌, if◌then◌else◌, is_empty, Bytes, equal,
  trim_space, join, Header, header_get,
}
use edged.Config.{RouteConfig}

-- What the code uses of package net.
pub record NetLib : Type 1 where
  pub Ip : Type 0
  pub IpNet : Type 0
  pub parse_ip : Bytes → Option Ip
  pub parse_cidr : Bytes → Option IpNet
  pub contains : IpNet → Ip → Bool
  -- the host part of `host:port`, `none` for an error
  pub split_host : Bytes → Option Bytes

-- The parts of an incoming request that are read.
pub record Incoming : Type 0 where
  pub remote_addr : Bytes
  pub header : Header
  pub host : Bytes
  pub path : Bytes

abbrev pub comma : ℕ
comma = b','

module _ (lib : NetLib) where
  open lib use {Ip, IpNet, parse_ip, parse_cidr, contains, split_host}

  -- `trustedCache`
  abbrev pub Cache : Type 0
  Cache = List (Bytes × List IpNet)

  unfoldable pub cached : Cache → Bytes → Option (List IpNet)
  cached [] key = none
  cached ((k, nets) ∷ cache) key = if equal k key then some nets else cached cache key

  -- The loop over the settings; one that does not parse is skipped.
  unfoldable pub parse_nets : List Bytes → List IpNet
  parse_nets [] = []
  parse_nets (cidr ∷ cidrs) = elim (parse_cidr (trim_space cidr)) [
    | some net ↦ net ∷ parse_nets cidrs
    | none ↦ parse_nets cidrs
  ]

  unfoldable pub parse_trusted_edge_proxy_nets : Cache → List Bytes → List IpNet × Cache
  parse_trusted_edge_proxy_nets cache cidrs =
      if is_empty cidrs
      then ([], cache)
      else (let key = join comma cidrs in
          elim (cached cache key) [
            | some nets ↦ (nets, cache)
            | none ↦ (parse_nets cidrs, (key, parse_nets cidrs) ∷ cache)
          ])

  unfoldable pub is_ip_in_trusted_range : Ip → List IpNet → Bool
  is_ip_in_trusted_range ip [] = false
  is_ip_in_trusted_range ip (n ∷ networks) =
      if contains n ip then true else is_ip_in_trusted_range ip networks

  unfoldable pub connecting_ip : Incoming → Bytes
  connecting_ip req = elim (split_host req.remote_addr) [
    | some host ↦ host
    | none ↦ req.remote_addr
  ]

  -- The header's value where the connecting address is trusted, else the connecting address.
  unfoldable pub trusted_header : Incoming → RouteConfig → List IpNet → Bytes
  trusted_header req rc networks =
      if is_empty networks then connecting_ip req else elim (parse_ip (connecting_ip req)) [
        | none ↦ connecting_ip req
        | some ip ↦
            if is_ip_in_trusted_range ip networks
            then (let value = trim_space (header_get req.header rc.real_ip_header) in
                if is_empty value then connecting_ip req else value)
            else connecting_ip req
      ]

  unfoldable pub resolve_client_ip : Cache → Incoming → RouteConfig → Bytes × Cache
  resolve_client_ip cache req rc =
      if is_empty rc.real_ip_header
      then (connecting_ip req, cache)
      else (let (networks, cache') =
            parse_trusted_edge_proxy_nets cache rc.trusted_edge_proxy_ips in
          (trusted_header req rc networks, cache'))
