-- ===== src/Proxy/Server/Registered.antt =====
-- `Start` starts the listeners in order and keeps what it starts.
use edged.Base.{
  and_false, false, ◌≡◌, ◌≢◌, refl, sym, ◌∙◌, ◌⊎◌, inl, inr, Bool, ◌&&◌, List, [], ◌∷◌, codes,
  equal, equal_iff, on_branches, if◌then◌else◌, and_true,
}
use mathlib.Core.Path.{subst}
use edged.Config.{ListenerConfig}
use edged.Proxy.Hosts.{has_passthrough_routes, proxy_protocol_enabled}
use edged.Proxy.Router.{Router}
use edged.Proxy.Setup.{UrlLib, RouterError, Proxied, new_proxy_router}
use edged.Proxy.Server.{
  Handler, proxies, Certificates, Goroutine, listen_and_serve, listen_and_serve_tls, serve_proxied,
  serve_tls_proxied, Server, StartError, router_error, StartEnd, started, fatal, failed, Answers,
  https, new_http_server, build_tls_config, start_https, start_tls_proxy_protocol,
  start_http_proxy_protocol, or_fatal, start_https_listener, start_http_listener, build_handler,
  start_one, start,
}
use edged.Proxy.Server.Growth.{
  Grows, Grows-nothing, Grows-launch, Grows-launch_passthrough, Grows-cons,
}
use mathlib.Core.Bool.{false≢true}
use edged.Proxy.Server.Starting.{
  Certifies, Certified, build_tls_config-Certified, Handles, Forwarding, redirects, forwards,
  ServedBy, over_http, over_proxied_http, over_https, over_proxied_https, passing, Blocked,
  no_router, uncertified, no_https_port, no_http_port, Starts, all_started, one_started, stopped,
}

module _ (lib : UrlLib) where
  -- One listener starts, or nothing changes.
  data Steps (s : Server) (l : ListenerConfig) (a : Answers) : StartEnd × Server → Type 0 where
    starting :
        (g : Goroutine) (s' : Server)
        → ServedBy lib s.has_acme_mgr l a g
        → Grows s (g ∷ []) s'
        → Steps s l a (started, s')
    blocking : {end : StartEnd} → Blocked lib s.has_acme_mgr l a end → Steps s l a (end, s)

  pub Blocked-halts :
      {has : Bool} {l : ListenerConfig} {a : Answers} {end : StartEnd}
      → Blocked lib has l a end
      → end ≢ started
  Blocked-halts (no_router e f is) h = cc
  Blocked-halts (uncertified e c) h = cc
  Blocked-halts (no_https_port e pp down) h = cc
  Blocked-halts (no_http_port n pp down) h = cc

  start_https-Steps :
      (s : Server) (l : ListenerConfig) (a : Answers) (h : Handler) (c : Certificates)
      → Handles lib l h
      → Certifies s.has_acme_mgr l a c
      → l.protocol ≡ https
      → Steps s l a (start_https l a (new_http_server l h) c s)
  unfolding start_https start_tls_proxy_protocol
  start_https-Steps s l a h c handles certifies e =
      on_branches (Steps s l a) (has_passthrough_routes l.routes) _ _
        (λ some_pass.
          starting _ _ (passing handles certifies e some_pass) (Grows-launch_passthrough s _))
        λ none_pass.
          on_branches (Steps s l a) (proxy_protocol_enabled l.proxy_protocol) _ _
            (λ pp.
              on_branches (Steps s l a) a.listens _ _
                (λ up.
                  starting _ _ (over_proxied_https handles certifies e none_pass pp up)
                    (Grows-launch s _ serve_tls_proxied refl refl))
                (λ down. blocking (no_https_port e pp down)))
            (λ bare.
              starting _ _ (over_https handles certifies e none_pass bare)
                (Grows-launch s _ listen_and_serve_tls refl refl))

  start_https_listener-Steps :
      (s : Server) (l : ListenerConfig) (a : Answers) (h : Handler)
      → Handles lib l h
      → l.protocol ≡ https
      → Steps s l a (start_https_listener l a (new_http_server l h) s)
  unfolding start_https_listener
  start_https_listener-Steps s l a h handles e =
      onward (build_tls_config s l a) (build_tls_config-Certified s l a)
    where
      onward :
          (c : StartError ⊎ Certificates)
          → Certified s.has_acme_mgr l a c
          → Steps s l a (elim c [
            | inl e ↦ (failed e, s)
            | inr tls_config ↦ start_https l a (new_http_server l h) tls_config s
          ])
      onward (inl err) c = blocking (uncertified e c)
      onward (inr cert) c = start_https-Steps s l a h cert handles c e

  start_http_listener-Steps :
      (s : Server) (l : ListenerConfig) (a : Answers) (h : Handler)
      → Handles lib l h
      → l.protocol ≢ https
      → Steps s l a (start_http_listener l a (new_http_server l h) s)
  unfolding start_http_listener start_http_proxy_protocol
  start_http_listener-Steps s l a h handles n =
      on_branches (Steps s l a) (proxy_protocol_enabled l.proxy_protocol) _ _
        (λ pp.
          on_branches (λ r. Steps s l a (or_fatal r)) a.listens _ _
            (λ up.
              starting _ _ (over_proxied_http handles n pp up)
                (Grows-launch s _ serve_proxied refl refl))
            (λ down. blocking (no_http_port n pp down)))
        (λ bare.
          starting _ _ (over_http handles n bare) (Grows-launch s _ listen_and_serve refl refl))

  abbrev Built : ListenerConfig → RouterError ⊎ Handler → Type 0
  Built l (inl e) = Forwarding lib l × (new_proxy_router lib l.name l.protocol l.routes ≡ inl e)
  Built l (inr h) = Handles lib l h

  build_handler-Built : (l : ListenerConfig) → Built l (build_handler lib l)
  unfolding build_handler
  build_handler-Built l =
      on_branches (Built l) (equal l.protocol (codes "http") && l.redirect_to_https) _ _
        (λ e. let both = and_true _ _ e in redirects ((equal_iff _ _).0 both.0) both.1)
        (λ other.
          onward (forwarding (and_false _ _ other))
            (new_proxy_router lib l.name l.protocol l.routes) refl)
    where
      forwarding :
          (equal l.protocol (codes "http") ≡ false) ⊎ (l.redirect_to_https ≡ false)
          → Forwarding lib l
      forwarding (inl e) = inl (λ same. false≢true (sym e ∙ (equal_iff _ _).1 same))
      forwarding (inr e) = inr e

      onward :
          Forwarding lib l
          → (r : RouterError ⊎ (Router × List Proxied))
          → new_proxy_router lib l.name l.protocol l.routes ≡ r
          → Built l (elim r [ inl e ↦ inl e | inr (r, ps) ↦ inr (proxies r ps) ])
      onward f (inl e) is = (f, is)
      onward f (inr (r, ps)) is = forwards r ps f is

  start_one-Steps :
      (s : Server) (l : ListenerConfig) (a : Answers) → Steps s l a (start_one lib l a s)
  unfolding start_one
  start_one-Steps s l a = onward (build_handler lib l) (build_handler-Built l)
    where
      onward :
          (r : RouterError ⊎ Handler)
          → Built l r
          → Steps s l a (elim r [
            | inl e ↦ (failed (router_error e), s)
            | inr h ↦
                if equal l.protocol https
                then start_https_listener l a (new_http_server l h) s
                else start_http_listener l a (new_http_server l h) s
          ])
      onward (inl e) b = blocking (no_router e b.0 b.1)
      onward (inr h) b =
          on_branches (Steps s l a) (equal l.protocol https) _ _
            (λ e. start_https_listener-Steps s l a h b ((equal_iff _ _).0 e))
            (λ e.
              start_http_listener-Steps s l a h b
                (λ same. absurd (false≢true (sym e ∙ (equal_iff _ _).1 same))))

  pub start-Starts :
      (listeners : List (ListenerConfig × Answers)) (s : Server)
      → (gs : List Goroutine) × Starts lib s.has_acme_mgr listeners (start lib listeners s).0 gs
        × Grows s gs (start lib listeners s).1
  unfolding start
  start-Starts [] s = ([], all_started, Grows-nothing s)
  start-Starts ((l, a) ∷ listeners) s =
      onward (λ s'. start-Starts listeners s') (start_one lib l a s) (start_one-Steps s l a)
    where
      Later : Type 0
      Later =
          (s' : Server)
          → (gs : List Goroutine) × Starts lib s'.has_acme_mgr listeners (start lib listeners s').0
              gs
            × Grows s' gs (start lib listeners s').1

      Good : StartEnd × Server → Type 0
      Good r =
          (gs : List Goroutine) × Starts lib s.has_acme_mgr ((l, a) ∷ listeners) r.0 gs
          × Grows s gs r.1

      blocked :
          (end : StartEnd) (rest : StartEnd × Server)
          → Blocked lib s.has_acme_mgr l a end
          → end ≢ started
          → Good (elim end [ started ↦ rest | fatal ↦ (fatal, s) | failed e ↦ (failed e, s) ])
      blocked started rest b n = absurd (n refl)
      blocked fatal rest b n = ([], stopped b, Grows-nothing s)
      blocked (failed e) rest b n = ([], stopped b, Grows-nothing s)

      onward :
          Later
          → (r : StartEnd × Server) → Steps s l a r
          → Good (
              let rest = start lib listeners r.1 in
              elim r.0 [ started ↦ rest | fatal ↦ (fatal, r.1) | failed e ↦ (failed e, r.1) ])
      onward later _ (starting g s' served grows) =
          let (gs, starts, more) = later s' in
          (
            g ∷ gs,
            one_started served (
                subst (λ m. Starts lib m listeners (start lib listeners s').0 gs) grows.same_manager
                  starts),
            Grows-cons grows more,
          )
      onward later _ (blocking b) = blocked _ _ b (Blocked-halts b)
