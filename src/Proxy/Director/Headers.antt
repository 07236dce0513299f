-- ===== src/Proxy/Director/Headers.antt =====
-- The headers that a rewritten request carries.
use edged.Base.{
  ◌≡◌, ap, refl, ◌∙◌, List, [], ◌∷◌, ◌++◌, if◌then◌else◌, is_empty, Bytes, codes, equal, to_lower,
  lower, Header, header_get, header_set, header_get-set,
}
use edged.Config.{RouteConfig}
use edged.Proxy.Router.{Url}
use edged.Proxy.ClientIp.{Incoming}
use edged.Proxy.Director.{
  Outgoing, x_forwarded_proto, x_forwarded_for, x_real_ip, set_url, forwarded_for, set_headers,
  forward_headers, direct,
}

-- The value of a header after the custom headers: that of the last one whose name is a spelling of
-- the key, or else the value before.
abbrev pub overridden : List (Bytes × Bytes) → Bytes → Bytes → Bytes
overridden [] key before = before
overridden ((k, v) ∷ custom) key before =
    overridden custom key (if equal (to_lower k) (to_lower key) then v else before)

header_get-set_headers :
    (h : Header) (custom : List (Bytes × Bytes)) (key : Bytes)
    → header_get (set_headers h custom) key ≡ overridden custom key (header_get h key)
unfolding set_headers
header_get-set_headers h [] key = refl
header_get-set_headers h ((k, v) ∷ custom) key =
    header_get-set_headers (header_set h k v) custom key
    ∙ ap (overridden custom key) (header_get-set h k v key)

-- What the upstream reads.
pub record Forwards (protocol client_ip : Bytes) (incoming : Incoming) (rc : RouteConfig)
    (out : Outgoing) : Type 0 where
  pub proto :
      header_get out.header x_forwarded_proto
      ≡ overridden rc.custom_headers x_forwarded_proto protocol
  pub real_ip : header_get out.header x_real_ip ≡ overridden rc.custom_headers x_real_ip client_ip
  pub chain :
      header_get out.header x_forwarded_for
      ≡ overridden rc.custom_headers x_forwarded_for (
          if is_empty (header_get incoming.header x_forwarded_for)
          then client_ip
          else header_get incoming.header x_forwarded_for ++ (codes ", " ++ client_ip))
  pub same_host : out.host ≡ incoming.host

-- The upstream is told the listener's protocol, the client's address and the chain of addresses
-- with the client's appended, each unless a custom header of the route has the same name in any
-- case, which then wins; and it is sent the host that the client asked for.
pub direct-Forwards :
    (protocol : Bytes) (target : Url) (rc : RouteConfig) (client_ip : Bytes) (incoming : Incoming)
    (out : Outgoing)
    → Forwards protocol client_ip incoming rc (direct protocol target rc client_ip incoming out)
unfolding direct forward_headers equal lower set_url
direct-Forwards protocol target rc client_ip incoming out =
    let h = out.header in
    let chain = forwarded_for (header_get incoming.header x_forwarded_for) client_ip in
    let h1 = header_set h x_forwarded_proto protocol in
    let h2 = header_set h1 x_forwarded_for chain in
    let h3 = header_set h2 x_real_ip client_ip in
    record {
      proto =
          header_get-set_headers h3 rc.custom_headers x_forwarded_proto
          ∙ ap (overridden rc.custom_headers x_forwarded_proto) (
              header_get-set h2 x_real_ip client_ip x_forwarded_proto
              ∙ header_get-set h1 x_forwarded_for chain x_forwarded_proto
              ∙ header_get-set h x_forwarded_proto protocol x_forwarded_proto);
      real_ip =
          header_get-set_headers h3 rc.custom_headers x_real_ip
          ∙ ap (overridden rc.custom_headers x_real_ip)
              (header_get-set h2 x_real_ip client_ip x_real_ip);
      chain =
          header_get-set_headers h3 rc.custom_headers x_forwarded_for
          ∙ ap (overridden rc.custom_headers x_forwarded_for) (
              header_get-set h2 x_real_ip client_ip x_forwarded_for
              ∙ header_get-set h1 x_forwarded_for chain x_forwarded_for);
      same_host = refl;
    }
