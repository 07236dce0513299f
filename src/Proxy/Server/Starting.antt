-- ===== src/Proxy/Server/Starting.antt =====
-- What `Start` starts.
use edged.Base.{
  ◌≡◌, ◌≢◌, refl, ◌⊎◌, inl, inr, Bool, true, false, not, ◌&&◌, some, List, [], ◌∷◌, Bytes, codes,
  is_empty, on_branches, arith,
}
use edged.Config.{ListenerConfig}
use edged.Proxy.Hosts.{has_passthrough_routes, proxy_protocol_enabled}
use edged.Proxy.Router.{Router}
use edged.Proxy.Setup.{UrlLib, RouterError, Proxied, new_proxy_router}
use edged.Proxy.Server.{
  Handler, redirector, proxies, Certificates, no_certificates, acme_certificates, key_pair,
  Goroutine, listen_and_serve, listen_and_serve_tls, serve_proxied, serve_tls_proxied,
  serve_passthrough, Server, StartError, router_error, no_acme_manager, static_certs_failed,
  tcp_listen_failed, StartEnd, started, fatal, failed, Answers, https, new_http_server,
  new_tls_pass_through_listener, build_tls_config,
}

-- The certificates of a listener with TLS.
pub data Certifies (has_acme_mgr : Bool) (l : ListenerConfig) (a : Answers)
    : Certificates → Type 0 where
  tls_off : l.tls.enabled ≡ false → Certifies has_acme_mgr l a no_certificates
  by_acme :
      l.tls.enabled ≡ true
      → l.tls.use_acme ≡ true
      → has_acme_mgr ≡ true
      → Certifies has_acme_mgr l a acme_certificates
  by_files :
      l.tls.enabled ≡ true
      → l.tls.use_acme ≡ false
      → a.loads_key_pair ≡ true
      → Certifies has_acme_mgr l a (key_pair l.tls.cert_file l.tls.key_file)
  no_files :
      l.tls.enabled ≡ true
      → l.tls.use_acme ≡ false
      → (l.tls.cert_file ≡ []) ⊎ (l.tls.key_file ≡ [])
      → Certifies has_acme_mgr l a no_certificates

pub data Uncertified (has_acme_mgr : Bool) (l : ListenerConfig) (a : Answers)
    : StartError → Type 0 where
  without_manager :
      l.tls.enabled ≡ true
      → l.tls.use_acme ≡ true
      → has_acme_mgr ≡ false
      → Uncertified has_acme_mgr l a no_acme_manager
  without_pair :
      l.tls.enabled ≡ true
      → l.tls.use_acme ≡ false
      → a.loads_key_pair ≡ false
      → Uncertified has_acme_mgr l a static_certs_failed

abbrev pub Certified : Bool → ListenerConfig → Answers → StartError ⊎ Certificates → Type 0
Certified has l a (inl e) = Uncertified has l a e
Certified has l a (inr c) = Certifies has l a c

missing_file : (s t : Bytes) → (not (is_empty s) && not (is_empty t)) ≡ false → (s ≡ []) ⊎ (t ≡ [])
missing_file [] t h = inl refl
missing_file (c ∷ s) [] h = inr refl
missing_file (c ∷ s) (d ∷ t) h = absurd (cc h)

pub build_tls_config-Certified :
    (s : Server) (l : ListenerConfig) (a : Answers)
    → Certified s.has_acme_mgr l a (build_tls_config s l a)
unfolding build_tls_config
build_tls_config-Certified s l a =
    on_branches P (not l.tls.enabled) _ _ (λ off. tls_off (ground arith))
      λ on.
        let enabled : l.tls.enabled ≡ true = ground arith in
        on_branches P l.tls.use_acme _ _
          (λ acme.
            on_branches P s.has_acme_mgr _ _ (by_acme enabled acme) (without_manager enabled acme))
          λ files.
            on_branches P (not (is_empty l.tls.cert_file) && not (is_empty l.tls.key_file)) _ _
              (λ given.
                on_branches P a.loads_key_pair _ _ (by_files enabled files)
                  (without_pair enabled files))
              (λ missing. no_files enabled files (missing_file _ _ missing))
  where
    P : StartError ⊎ Certificates → Type 0
    P = Certified s.has_acme_mgr l a

module _ (lib : UrlLib) where
  -- The listener does not redirect.
  abbrev pub Forwarding : ListenerConfig → Type 0
  Forwarding l = (l.protocol ≢ codes "http") ⊎ (l.redirect_to_https ≡ false)

  -- The handler of a listener: a redirection, or the router of its routes where it does not redirect.
  pub data Handles (l : ListenerConfig) : Handler → Type 0 where
    redirects : l.protocol ≡ codes "http" → l.redirect_to_https ≡ true → Handles l redirector
    forwards :
        (r : Router) (ps : List Proxied)
        → Forwarding l
        → new_proxy_router lib l.name l.protocol l.routes ≡ inr (r, ps)
        → Handles l (proxies r ps)

  -- The goroutine that serves a listener.
  pub data ServedBy (has_acme_mgr : Bool) (l : ListenerConfig) (a : Answers)
      : Goroutine → Type 0 where
    over_http :
        {h : Handler}
        → Handles l h
        → l.protocol ≢ https
        → proxy_protocol_enabled l.proxy_protocol ≡ false
        → ServedBy has_acme_mgr l a (listen_and_serve (new_http_server l h))
    over_proxied_http :
        {h : Handler}
        → Handles l h
        → l.protocol ≢ https
        → proxy_protocol_enabled l.proxy_protocol ≡ true
        → a.listens ≡ true
        → ServedBy has_acme_mgr l a (serve_proxied (new_http_server l h))
    over_https :
        {h : Handler} {c : Certificates}
        → Handles l h
        → Certifies has_acme_mgr l a c
        → l.protocol ≡ https
        → has_passthrough_routes l.routes ≡ false
        → proxy_protocol_enabled l.proxy_protocol ≡ false
        → ServedBy has_acme_mgr l a
            (listen_and_serve_tls (record (new_http_server l h) { tls_config = some c }))
    over_proxied_https :
        {h : Handler} {c : Certificates}
        → Handles l h
        → Certifies has_acme_mgr l a c
        → l.protocol ≡ https
        → has_passthrough_routes l.routes ≡ false
        → proxy_protocol_enabled l.proxy_protocol ≡ true
        → a.listens ≡ true
        → ServedBy has_acme_mgr l a
            (serve_tls_proxied (record (new_http_server l h) { tls_config = some c }))
    passing :
        {h : Handler} {c : Certificates}
        → Handles l h
        → Certifies has_acme_mgr l a c
        → l.protocol ≡ https
        → has_passthrough_routes l.routes ≡ true
        → ServedBy has_acme_mgr l a (serve_passthrough (new_tls_pass_through_listener l h c))

  -- Why a listener does not start.
  pub data Blocked (has_acme_mgr : Bool) (l : ListenerConfig) (a : Answers)
      : StartEnd → Type 0 where
    no_router :
        (e : RouterError)
        → Forwarding l
        → new_proxy_router lib l.name l.protocol l.routes ≡ inl e
        → Blocked has_acme_mgr l a (failed (router_error e))
    uncertified :
        {e : StartError}
        → l.protocol ≡ https
        → Uncertified has_acme_mgr l a e
        → Blocked has_acme_mgr l a (failed e)
    no_https_port :
        l.protocol ≡ https
        → proxy_protocol_enabled l.proxy_protocol ≡ true
        → a.listens ≡ false
        → Blocked has_acme_mgr l a (failed tcp_listen_failed)
    no_http_port :
        l.protocol ≢ https
        → proxy_protocol_enabled l.proxy_protocol ≡ true
        → a.listens ≡ false
        → Blocked has_acme_mgr l a fatal

  -- The listeners start in order up to the first one that does not.
  pub data Starts (has_acme_mgr : Bool)
      : List (ListenerConfig × Answers) → StartEnd → List Goroutine → Type 0 where
    all_started : Starts has_acme_mgr [] started []
    one_started :
        {l : ListenerConfig} {a : Answers} {listeners : List (ListenerConfig × Answers)}
        {end : StartEnd} {g : Goroutine} {gs : List Goroutine}
        → ServedBy has_acme_mgr l a g
        → Starts has_acme_mgr listeners end gs
        → Starts has_acme_mgr ((l, a) ∷ listeners) end (g ∷ gs)
    stopped :
        {l : ListenerConfig} {a : Answers} {listeners : List (ListenerConfig × Answers)}
        {end : StartEnd}
        → Blocked has_acme_mgr l a end
        → Starts has_acme_mgr ((l, a) ∷ listeners) end []
