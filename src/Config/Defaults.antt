-- ===== src/Config/Defaults.antt =====
-- config/config.go: the values that depend on other fields, which setDefaults fills in.
pub mod Inheritance
use edged.Base.{
  ◌&&◌, not, Bool, true, false, Option, none, some, List, [], ◌∷◌, map, if◌then◌else◌, is_empty,
  Bytes, codes, has_suffix,
}
use edged.Config.Types.{RouteConfig, ListenerConfig, Config}

abbrev pub port_443 : Bytes
port_443 = codes ":443"

-- `if own == "" && outer != "" { own = outer }`
unfoldable pub inherit : Bytes → Bytes → Bytes
inherit outer own = if is_empty own && not (is_empty outer) then outer else own

unfoldable pub infer_protocol : ListenerConfig → Bytes
infer_protocol l =
    if is_empty l.protocol
    then (if has_suffix l.address port_443 then codes "https" else codes "http")
    else l.protocol

unfoldable pub route_defaults : Bytes → RouteConfig → RouteConfig
route_defaults proxy r = record r { upstream_socks5_proxy = inherit proxy r.upstream_socks5_proxy }

unfoldable pub listener_defaults : Bytes → ListenerConfig → ListenerConfig
listener_defaults proxy l =
    let own = inherit proxy l.upstream_socks5_proxy in
    record l {
      protocol = infer_protocol l;
      upstream_socks5_proxy = own;
      routes = map (route_defaults own) l.routes;
    }

-- `setDefaults`; `apply` is `defaulter.ApplyDefaults`, with `none` for an error.
unfoldable pub set_defaults : (Config → Option Config) → Config → Option Config
set_defaults apply c = elim (apply c) [
  | none ↦ none
  | some filled ↦ some (record filled {
    listeners = map (listener_defaults filled.default_upstream_socks5_proxy) filled.listeners;
  })
]
