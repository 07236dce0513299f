-- ===== src/Config/Defaults/Inheritance.antt =====
-- Where the SOCKS5 proxies and the protocol of a configuration come from.
use edged.Base.{
  Bool, true, false, ◌≡◌, refl, Option, none, some, List, [], ◌∷◌, map, if◌then◌else◌, is_empty,
  Bytes, codes, has_suffix,
}
use edged.Config.Types.{RouteConfig, ListenerConfig, Config}
use edged.Config.Defaults.{
  port_443, inherit, infer_protocol, route_defaults, listener_defaults, set_defaults,
}

-- The value in force: its own, or else the outer one.
pub data Inherits (outer own : Bytes) : Bytes → Type 0 where
  own_value : ¬ (own ≡ []) → Inherits outer own own
  outer_value : own ≡ [] → Inherits outer own outer

inherit-Inherits : (outer own : Bytes) → Inherits outer own (inherit outer own)
unfolding inherit
inherit-Inherits [] [] = outer_value refl
inherit-Inherits (c ∷ outer) [] = outer_value refl
inherit-Inherits outer (c ∷ own) = own_value (λ e. cc)

-- The protocol of a listener: as configured, or else https on port 443 and http elsewhere.
pub data Infers (address protocol : Bytes) : Bytes → Type 0 where
  configured : ¬ (protocol ≡ []) → Infers address protocol protocol
  secure :
      protocol ≡ [] → has_suffix address port_443 ≡ true → Infers address protocol (codes "https")
  plain :
      protocol ≡ [] → has_suffix address port_443 ≡ false → Infers address protocol (codes "http")

infer_protocol-Infers : (l : ListenerConfig) → Infers l.address l.protocol (infer_protocol l)
unfolding infer_protocol
infer_protocol-Infers l = go l.protocol (has_suffix l.address port_443) refl
  where
    go :
        (p : Bytes) (s : Bool)
        → has_suffix l.address port_443 ≡ s
        → Infers l.address p (if is_empty p then (if s then codes "https" else codes "http") else p)
    go [] true e = secure refl e
    go [] false e = plain refl e
    go (c ∷ p) s e = configured (λ h. cc)

-- Two lists of one length, related entry by entry.
abbrev pub Pairwise {ℓ} : {A : Type ℓ} → (A → A → Type 0) → List A → List A → Type 0
Pairwise R [] [] = Unit
Pairwise R [] (y ∷ ys) = ⊥
Pairwise R (x ∷ xs) [] = ⊥
Pairwise R (x ∷ xs) (y ∷ ys) = R x y × Pairwise R xs ys

Pairwise-map {ℓ} :
    {A : Type ℓ} (R : A → A → Type 0) (f : A → A) (xs : List A)
    → ((x : A) → R x (f x))
    → Pairwise R xs (map f xs)
Pairwise-map R f [] h = tt
Pairwise-map R f (x ∷ xs) h = (h x, Pairwise-map R f xs h)

-- A route after the defaults: its proxy is its own or the listener's, and nothing else changed.
pub record RouteFilled (proxy : Bytes) (r s : RouteConfig) : Type 0 where
  pub inherits : Inherits proxy r.upstream_socks5_proxy s.upstream_socks5_proxy
  pub others : s ≡ record r { upstream_socks5_proxy = s.upstream_socks5_proxy }

-- A listener after the defaults.
pub record ListenerFilled (proxy : Bytes) (l m : ListenerConfig) : Type 0 where
  pub infers : Infers l.address l.protocol m.protocol
  pub inherits : Inherits proxy l.upstream_socks5_proxy m.upstream_socks5_proxy
  pub routes : Pairwise (RouteFilled m.upstream_socks5_proxy) l.routes m.routes
  pub others : m ≡ record l {
    protocol = m.protocol;
    upstream_socks5_proxy = m.upstream_socks5_proxy;
    routes = m.routes;
  }

-- The two configurations differ in the listeners alone, which are filled in one by one.
pub record ConfigFilled (c d : Config) : Type 0 where
  pub listeners : Pairwise (ListenerFilled c.default_upstream_socks5_proxy) c.listeners d.listeners
  pub others : d ≡ record c { listeners = d.listeners }

route_defaults-RouteFilled :
    (proxy : Bytes) (r : RouteConfig) → RouteFilled proxy r (route_defaults proxy r)
unfolding route_defaults
route_defaults-RouteFilled proxy r = record {
  inherits = inherit-Inherits proxy r.upstream_socks5_proxy;
  others = refl;
}

listener_defaults-ListenerFilled :
    (proxy : Bytes) (l : ListenerConfig) → ListenerFilled proxy l (listener_defaults proxy l)
unfolding listener_defaults
listener_defaults-ListenerFilled proxy l =
    let own = inherit proxy l.upstream_socks5_proxy in
    record {
      infers = infer_protocol-Infers l;
      inherits = inherit-Inherits proxy l.upstream_socks5_proxy;
      routes =
          Pairwise-map (RouteFilled own) (route_defaults own) l.routes
            (route_defaults-RouteFilled own);
      others = refl;
    }

abbrev pub FilledFrom : Option Config → Option Config → Type 0
FilledFrom none none = Unit
FilledFrom none (some d) = ⊥
FilledFrom (some c) none = ⊥
FilledFrom (some c) (some d) = ConfigFilled c d

-- The defaults fail exactly when the default values of the tags cannot be applied. Otherwise each
-- listener without a protocol is given https where its address ends in `:443` and http elsewhere;
-- each listener without a SOCKS5 proxy is given the global one, and each route without one the one
-- its listener then has; nothing else changes after the default values of the tags.
pub set_defaults-FilledFrom :
    (apply : Config → Option Config) (c : Config) → FilledFrom (apply c) (set_defaults apply c)
unfolding set_defaults
set_defaults-FilledFrom apply c = filled (apply c)
  where
    filled :
        (o : Option Config)
        → FilledFrom o (elim o [
          | none ↦ none
          | some f ↦ some (record f {
            listeners = map (listener_defaults f.default_upstream_socks5_proxy) f.listeners;
          })
        ])
    filled none = tt
    filled (some f) = record {
      listeners =
          Pairwise-map (ListenerFilled f.default_upstream_socks5_proxy)
            (listener_defaults f.default_upstream_socks5_proxy) f.listeners
            (listener_defaults-ListenerFilled f.default_upstream_socks5_proxy);
      others = refl;
    }
