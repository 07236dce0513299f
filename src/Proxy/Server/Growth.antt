-- ===== src/Proxy/Server/Growth.antt =====
-- The lists of a `Server` beside the goroutines that it has started.
use edged.Base.{◌≡◌, refl, sym, ◌∙◌, ap, List, [], ◌∷◌, ◌++◌, append_assoc, append-nil}
use edged.Proxy.Server.{
  HttpServer, TlsPassThroughListener, Goroutine, listen_and_serve, listen_and_serve_tls,
  serve_proxied, serve_tls_proxied, serve_passthrough, Server, launch, launch_passthrough,
}

abbrev pub http_of : Goroutine → List HttpServer
http_of (listen_and_serve srv) = srv ∷ []
http_of (listen_and_serve_tls srv) = srv ∷ []
http_of (serve_proxied srv) = srv ∷ []
http_of (serve_tls_proxied srv) = srv ∷ []
http_of (serve_passthrough p) = []

abbrev pub passthrough_of : Goroutine → List TlsPassThroughListener
passthrough_of (serve_passthrough p) = p ∷ []
passthrough_of (listen_and_serve srv) = []
passthrough_of (listen_and_serve_tls srv) = []
passthrough_of (serve_proxied srv) = []
passthrough_of (serve_tls_proxied srv) = []

abbrev pub all_http : List Goroutine → List HttpServer
all_http [] = []
all_http (g ∷ gs) = http_of g ++ all_http gs

abbrev pub all_passthrough : List Goroutine → List TlsPassThroughListener
all_passthrough [] = []
all_passthrough (g ∷ gs) = passthrough_of g ++ all_passthrough gs

-- The server has grown by the goroutines, and it keeps what they run.
pub record Grows (s : Server) (gs : List Goroutine) (s' : Server) : Type 0 where
  pub same_manager : s'.has_acme_mgr ≡ s.has_acme_mgr
  pub more : s'.goroutines ≡ s.goroutines ++ gs
  pub more_http : s'.servers ≡ s.servers ++ all_http gs
  pub more_passthrough :
      s'.tls_passthrough_servers ≡ s.tls_passthrough_servers ++ all_passthrough gs

pub Grows-nothing : (s : Server) → Grows s [] s
Grows-nothing s = record {
  same_manager = refl;
  more = sym (append-nil _);
  more_http = sym (append-nil _);
  more_passthrough = sym (append-nil _);
}

pub Grows-launch :
    (s : Server) (srv : HttpServer) (run : HttpServer → Goroutine)
    → http_of (run srv) ≡ srv ∷ []
    → passthrough_of (run srv) ≡ []
    → Grows s (run srv ∷ []) (launch s srv run)
Grows-launch s srv run e e' = record {
  same_manager = refl;
  more = refl;
  more_http = ap (λ t. s.servers ++ t) (sym (ap (λ t. t ++ []) e));
  more_passthrough =
      sym (append-nil _) ∙ ap (λ t. s.tls_passthrough_servers ++ t) (sym (ap (λ t. t ++ []) e'));
}

pub Grows-launch_passthrough :
    (s : Server) (p : TlsPassThroughListener)
    → Grows s (serve_passthrough p ∷ []) (launch_passthrough s p)
Grows-launch_passthrough s p = record {
  same_manager = refl;
  more = refl;
  more_http = sym (append-nil _);
  more_passthrough = refl;
}

all_http-cons :
    (g : Goroutine) (gs : List Goroutine) (t : List HttpServer)
    → (t ++ all_http (g ∷ [])) ++ all_http gs ≡ t ++ all_http (g ∷ gs)
all_http-cons g gs t =
    append_assoc t _ _ ∙ ap (λ u. t ++ (u ++ all_http gs)) (append-nil (http_of g))

all_passthrough-cons :
    (g : Goroutine) (gs : List Goroutine) (t : List TlsPassThroughListener)
    → (t ++ all_passthrough (g ∷ [])) ++ all_passthrough gs ≡ t ++ all_passthrough (g ∷ gs)
all_passthrough-cons g gs t =
    append_assoc t _ _ ∙ ap (λ u. t ++ (u ++ all_passthrough gs)) (append-nil (passthrough_of g))

pub Grows-cons :
    {s s1 s2 : Server} {g : Goroutine} {gs : List Goroutine}
    → Grows s (g ∷ []) s1
    → Grows s1 gs s2
    → Grows s (g ∷ gs) s2
Grows-cons {s} {g = g} {gs = gs} one rest = record {
  same_manager = rest.same_manager ∙ one.same_manager;
  more = rest.more ∙ ap (λ t. t ++ gs) one.more ∙ append_assoc s.goroutines (g ∷ []) gs;
  more_http =
      rest.more_http ∙ ap (λ t. t ++ all_http gs) one.more_http ∙ all_http-cons g gs s.servers;
  more_passthrough =
      rest.more_passthrough
      ∙ ap (λ t. t ++ all_passthrough gs) one.more_passthrough
      ∙ all_passthrough-cons g gs s.tls_passthrough_servers;
}
