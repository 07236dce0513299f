-- ===== src/Proxy/Passthrough/Upstream.antt =====
-- proxy/tcp_proxy.go: the connection to a passthrough route's upstream. Packages net, net/url and
-- proxyproto are a parameter.
use edged.Base.{
  ℕ, ◌+◌, ◌*◌, ◌-◌, ◌%◌, ◌==◌, leb, Bool, true, false, not, ◌&&◌, Option, none, some, List, [], ◌∷◌,
  ◌++◌, if◌then◌else◌, is_empty, Bytes,
}
use edged.Base.Int.{ℤ, pos}
use edged.Config.{RouteConfig}
use edged.Proxy.Hosts.{proxy_protocol_enabled}
use edged.Proxy.Router.{Url}

abbrev pub second : ℕ
second = 1000000000

abbrev pub default_passthrough_idle_timeout : ℤ
default_passthrough_idle_timeout = pos (30 * second)

abbrev pub default_upstream_dial_timeout : ℕ
default_upstream_dial_timeout = 10 * second

pub record DialLib : Type 0 where
  -- `url.Parse`
  pub parse_url : Bytes → Option Url
  -- `proxy.FromURL` gives a dialer
  pub has_dialer : Url → Bool
  -- the dialer's `Dial`, and `net.Dialer.DialContext` with a timeout
  pub dial_by : Url → Bytes → Bool
  pub dial : ℕ → Bytes → Bool
  -- the address of the other end of a connection to the address
  pub remote_addr : Bytes → Bytes
  -- `proxyproto.HeaderProxyFromAddrs`, formatted
  pub header_from_addrs : ℕ → Bytes → Bytes → Bytes
  -- writing to the connection to the address succeeds
  pub writes : Bytes → Bytes → Bool

pub data UpstreamEvent : Type 0 where
  -- by which proxy, to which address, and whether it succeeds
  dialed : Option Url → Bytes → Bool → UpstreamEvent
  header_sent : Bytes → UpstreamEvent
  upstream_closed : UpstreamEvent

-- How `proxyTCP` gets to the upstream.
pub data Opened : Type 0 where
  unreachable header_refused ready : Opened

-- `strconv.Atoi` of a text without a sign; what stands behind the digits makes an error.
unfoldable pub digits : ℕ → Bytes → Option ℕ
digits n [] = some n
digits n (c ∷ s) = if leb b'0' c && leb c b'9' then digits (n * 10 + (c - b'0')) s else none

-- `strconv.Atoi`, with 0 for an error and for a negative number.
unfoldable pub atoi : Bytes → ℕ
unfolding digits
atoi [] = 0
atoi (c ∷ s) =
    elim (if c == b'+' then (if is_empty s then none else digits 0 s) else digits 0 (c ∷ s)) [
      | none ↦ 0
      | some n ↦ n
    ]

unfoldable pub proxy_protocol_version : Bytes → ℕ
unfolding atoi
proxy_protocol_version pp = let v = atoi pp in if not (v == 1) && not (v == 2) then 0 else v

-- `upstreamURL.Host`, or its path where that is empty.
unfoldable pub dial_address : Url → Bytes
dial_address url = if is_empty url.host then url.path else url.host

abbrev pub connected : Option Url → Bytes → Bool → Option Bytes × List UpstreamEvent
connected by addr true = (some addr, dialed by addr true ∷ [])
connected by addr false = (none, dialed by addr false ∷ [])

module _ (net : DialLib) where
  open net use {parse_url, has_dialer, dial_by, remote_addr, header_from_addrs, writes}

  -- `dialUpstream`: the address connected to, `none` for an error, and the calls made.
  unfoldable pub dial_upstream : Bytes → Bytes → Option Bytes × List UpstreamEvent
  dial_upstream upstream upstream_socks5_proxy = elim (parse_url upstream) [
    | none ↦ (none, [])
    | some url ↦
        let addr = dial_address url in
        if is_empty upstream_socks5_proxy
        then connected none addr (net.dial default_upstream_dial_timeout addr)
        else elim (parse_url upstream_socks5_proxy) [
          | none ↦ (none, [])
          | some proxy_url ↦
              if has_dialer proxy_url
              then connected (some proxy_url) addr (dial_by proxy_url addr)
              else (none, [])
        ]
  ]

  -- `sendProxyProtocolHeader`: whether it was written, and the call made.
  unfoldable pub send_proxy_protocol_header : Bytes → Bytes → ℕ → Bool × List UpstreamEvent
  send_proxy_protocol_header addr client_addr version =
      let header = header_from_addrs (version % 256) client_addr (remote_addr addr) in
      (writes addr header, header_sent header ∷ [])

  -- The first part of `proxyTCP`: the dialing, and the PROXY protocol header.
  unfoldable pub open_upstream : RouteConfig → Bytes → Opened × List UpstreamEvent
  open_upstream route client_addr =
      let (conn, events) = dial_upstream route.upstream route.upstream_socks5_proxy in
      elim conn [
        | none ↦ (unreachable, events)
        | some addr ↦
            if proxy_protocol_enabled route.proxy_protocol
            then (let (written, sent) =
                  send_proxy_protocol_header addr client_addr
                    (proxy_protocol_version route.proxy_protocol) in
                (if written then ready else header_refused, events ++ sent))
            else (ready, events)
      ]
