-- ===== src/Proxy/Server/Addresses.antt =====
-- What `GetListenersAddrs` lists.
use edged.Base.{
  ◌≡◌, ◌≢◌, refl, sym, ◌∙◌, ap, Bool, true, false, ◌&&◌, List, [], ◌∷◌, ◌++◌, map, Bytes, equal,
  equal_iff, if◌then◌else◌, if-false, if-true, arith,
}
use edged.Config.{ListenerConfig}
use edged.Proxy.Hosts.{has_passthrough_routes}
use edged.Proxy.Setup.{UrlLib}
use edged.Proxy.Server.{
  HttpServer, Goroutine, StartEnd, started, Answers, https, start, new_server, get_listeners_addrs,
}
use edged.Proxy.Server.Starting.{
  ServedBy, over_http, over_proxied_http, over_https, over_proxied_https, passing, Starts,
  all_started, one_started, stopped,
}
use edged.Proxy.Server.Growth.{all_http, http_of}
use edged.Proxy.Server.Registered.{Blocked-halts, start-Starts}

abbrev pub is_passthrough : ListenerConfig → Bool
is_passthrough l = equal l.protocol https && has_passthrough_routes l.routes

-- The configured addresses of the listeners that are no passthrough listeners.
abbrev pub plain_addresses : List (ListenerConfig × Answers) → List Bytes
plain_addresses [] = []
plain_addresses ((l, a) ∷ listeners) =
    if is_passthrough l then plain_addresses listeners else l.address ∷ plain_addresses listeners

not_https : (l : ListenerConfig) → l.protocol ≢ https → is_passthrough l ≡ false
not_https l n = ground (arith, equal_iff l.protocol https)

no_routes :
    (l : ListenerConfig) → has_passthrough_routes l.routes ≡ false → is_passthrough l ≡ false
no_routes l e = ground arith

passes :
    (l : ListenerConfig)
    → l.protocol ≡ https
    → has_passthrough_routes l.routes ≡ true
    → is_passthrough l ≡ true
passes l e r = ground (arith, equal_iff l.protocol https)

module _ (lib : UrlLib) where
  served-addresses :
      {has : Bool} (l : ListenerConfig) (a : Answers) (g : Goroutine) (rest : List HttpServer)
      (listeners : List (ListenerConfig × Answers))
      → ServedBy lib has l a g
      → map (λ srv. srv.addr) rest ≡ plain_addresses listeners
      → map (λ srv. srv.addr) (http_of g ++ rest) ≡ plain_addresses ((l, a) ∷ listeners)
  served-addresses l a _ rest listeners (over_http h n pp) e =
      ap (◌∷◌ l.address) e ∙ sym (if-false _ _ (not_https l n))
  served-addresses l a _ rest listeners (over_proxied_http h n pp up) e =
      ap (◌∷◌ l.address) e ∙ sym (if-false _ _ (not_https l n))
  served-addresses l a _ rest listeners (over_https h c s np pp) e =
      ap (◌∷◌ l.address) e ∙ sym (if-false _ _ (no_routes l np))
  served-addresses l a _ rest listeners (over_proxied_https h c s np pp up) e =
      ap (◌∷◌ l.address) e ∙ sym (if-false _ _ (no_routes l np))
  served-addresses l a _ rest listeners (passing h c s some_pass) e =
      e ∙ sym (if-true _ _ (passes l s some_pass))

  Starts-addresses :
      {has : Bool} {listeners : List (ListenerConfig × Answers)} {end : StartEnd}
      {gs : List Goroutine}
      → Starts lib has listeners end gs
      → end ≡ started
      → map (λ srv. srv.addr) (all_http gs) ≡ plain_addresses listeners
  Starts-addresses all_started e = refl
  Starts-addresses (one_started {l} {a} {listeners} {g = g} {gs = gs} served rest) e =
      served-addresses l a g (all_http gs) listeners served (Starts-addresses rest e)
  Starts-addresses (stopped b) e = absurd (Blocked-halts lib b e)

  -- When a new server has started all listeners, `get_listeners_addrs` lists the configured
  -- addresses, in order, of those listeners that are not https listeners with a passthrough route;
  -- the passthrough listeners are not listed.
  pub get_listeners_addrs-start :
      (has_acme_mgr : Bool) (listeners : List (ListenerConfig × Answers))
      → (start lib listeners (new_server has_acme_mgr)).0 ≡ started
      → get_listeners_addrs (start lib listeners (new_server has_acme_mgr)).1
        ≡ plain_addresses listeners
  unfolding get_listeners_addrs new_server
  get_listeners_addrs-start has listeners e =
      let (gs, starts, grows) = start-Starts lib listeners (new_server has) in
      ap (map (λ srv. srv.addr)) grows.more_http ∙ Starts-addresses starts e
