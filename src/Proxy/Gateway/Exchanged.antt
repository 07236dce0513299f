-- ===== src/Proxy/Gateway/Exchanged.antt =====
-- Each request gets the answer of the right upstream, or an answer of the gateway's own.
use edged.Base.{
  true, false, equal, lower, is_empty, on_option, on_branches, ◌≡◌, refl, ap, ◌⊎◌, inl, inr, none,
  some, List, [], ◌∷◌, if◌then◌else◌, Bytes, codes, normalize, All, All-middle, Lacks, Bool-cases,
  header_get, header_set,
}
use edged.Base.Int.{pos, ltb_ℤ}
use edged.Config.{RouteConfig}
use edged.Proxy.Router.{
  RouteEntry, RequestContext, Response, not_found, proxied, Router, cut_port, serve_http,
}
use edged.Proxy.Router.Best.{Idle, IsBest, Answers, serve_http-Answers}
use edged.Proxy.ClientIp
use edged.Proxy.ClientIp.{Incoming, Cache, comma, resolve_client_ip}
use mathlib.Core.Path.{subst}
use edged.Proxy.ClientIp.Trust.{
  IsConsistent, Believed, parse_trusted-transparent, resolve_client_ip-Believed,
}
use edged.Proxy.Director.{Outgoing, rewrite_request, direct, set_url}
use edged.Proxy.Director.Headers.{Forwards, direct-Forwards}
use edged.Proxy.Gateway.{
  Answer, Exchange, GatewayLib, error_source, no_route, error_response, error_answer, answer_of,
  proxy_request, respond_with, handle, serve_requests,
}

abbrev pub LacksComma : RouteEntry → Type 0
LacksComma e = All (Lacks comma) e.config.trusted_edge_proxy_ips

-- The settings of the route with another upstream.
abbrev pub elsewhere : RouteConfig → Bytes → Bytes → RouteConfig
elsewhere rc upstream socks5 = record rc { upstream = upstream; upstream_socks5_proxy = socks5 }

LacksComma-best :
    {host path : Bytes} {routes : List RouteEntry} {e : RouteEntry}
    → IsBest host path routes e
    → All LacksComma routes
    → LacksComma e
LacksComma-best {e = e} best l =
    All-middle LacksComma best.before e best.after (subst (All LacksComma) best.splits l)

module _ (lib : GatewayLib) where
  open lib use {net, forward, http_error}

  -- The answer is the upstream's; or it is 502, marked as the gateway's own, and what the settings
  -- say of the upstream has no part in it unless the route is being debugged.
  pub data Answered (e : RouteEntry) (ctx : RequestContext) (req : Incoming) (out : Outgoing)
      (a : Answer) : Type 0 where
    by_upstream : forward e ctx out ≡ some a → Answered e ctx req out a
    by_gateway :
        forward e ctx out ≡ none
        → a.status ≡ 502
        → header_get a.header error_source ≡ codes "edge"
        → (e.config.debug ≡ true)
          ⊎ ((u s : Bytes) → a ≡ error_answer lib (elsewhere e.config u s) req.remote_addr)
        → Answered e ctx req out a

  pub data Exchanged (r : Router) (req : Incoming) (x : Exchange) : Type 0 where
    unrouted :
        All (Idle (normalize (cut_port req.host)) req.path) r.routes
        → x ≡ record {
          sent = none;
          answer = http_error (no_route (normalize (cut_port req.host))) 404;
        }
        → Exchanged r req x
    routed :
        (e : RouteEntry) (ctx : RequestContext) (out : Outgoing) (client_ip : Bytes)
        → IsBest (normalize (cut_port req.host)) req.path r.routes e
        → ctx.tied_to_server ≡ r.has_base_ctx
        → ctx.timeout ≡ (if ltb_ℤ (pos 0) e.config.timeout then some e.config.timeout else none)
        → (client_ip ≡ ClientIp.connecting_ip net req) ⊎ Believed net req e.config client_ip
        → Forwards r.protocol client_ip req e.config out
        → (out.scheme ≡ e.target.scheme) × (out.url_host ≡ e.target.host)
        → x.sent ≡ some out
        → Answered e ctx req out x.answer
        → Exchanged r req x

  error_answer-hides :
      (rc : RouteConfig) (remote u s : Bytes)
      → rc.debug ≡ false
      → error_answer lib rc remote ≡ error_answer lib (elsewhere rc u s) remote
  unfolding error_answer error_response
  error_answer-hides rc remote u s off = rw off refl

  error_answer-status :
      (rc : RouteConfig) (remote : Bytes) → (error_answer lib rc remote).status ≡ 502
  unfolding error_answer
  error_answer-status rc remote = refl

  error_answer-marked :
      (rc : RouteConfig) (remote : Bytes)
      → header_get (error_answer lib rc remote).header error_source ≡ codes "edge"
  unfolding error_answer header_get header_set equal lower
  error_answer-marked rc remote = refl

  answer_of-Answered :
      (e : RouteEntry) (ctx : RequestContext) (req : Incoming) (out : Outgoing)
      → Answered e ctx req out (answer_of lib e ctx req.remote_addr out)
  unfolding answer_of
  answer_of-Answered e ctx req out =
      on_option (Answered e ctx req out) (forward e ctx out) _ _
        (λ failed.
          by_gateway failed (error_answer-status e.config req.remote_addr)
            (error_answer-marked e.config req.remote_addr)
            (elim (Bool-cases e.config.debug) [
              | inl on ↦ inl on
              | inr off ↦ inr (λ u s. error_answer-hides e.config req.remote_addr u s off)
            ]))
        (λ a given. by_upstream given)

  resolve_client_ip-IsConsistent :
      (cache : Cache net) (req : Incoming) (rc : RouteConfig)
      → IsConsistent net cache
      → All (Lacks comma) rc.trusted_edge_proxy_ips
      → IsConsistent net (resolve_client_ip net cache req rc).1
  unfolding resolve_client_ip
  resolve_client_ip-IsConsistent cache req rc c l =
      on_branches (λ (p : Bytes × Cache net). IsConsistent net p.1) (is_empty rc.real_ip_header) _ _
        (λ unnamed. c)
        (λ named. (parse_trusted-transparent net cache rc.trusted_edge_proxy_ips c l).1)

  respond-Exchanged :
      (r : Router) (cache : Cache net) (req : Incoming) (a : Response)
      → IsConsistent net cache
      → All LacksComma r.routes
      → Answers r (normalize (cut_port req.host)) req.path a
      → Exchanged r req (respond_with lib r cache req a).0
        × IsConsistent net (respond_with lib r cache req a).1
  unfolding respond_with proxy_request rewrite_request direct set_url
  respond-Exchanged r cache req (not_found host) c l (same, idle) = (
    unrouted idle (ap (λ h. record { sent = none; answer = http_error (no_route h) 404 }) same),
    c,
  )
  respond-Exchanged r cache req (proxied e ctx) c l (best, tied, timed) =
      let commas = LacksComma-best best l in
      let out = (rewrite_request net r.protocol e.target e.config cache req (lib.out_of req)).0 in
      let client_ip = (resolve_client_ip net cache req e.config).0 in
      (
        routed e ctx out client_ip best tied timed
            (resolve_client_ip-Believed net cache req e.config c commas)
            (direct-Forwards r.protocol e.target e.config client_ip req (lib.out_of req))
            (refl, refl) refl (answer_of-Answered e ctx req out),
        resolve_client_ip-IsConsistent cache req e.config c commas,
      )

  -- One exchange for each request.
  abbrev pub AllExchanged : Router → List Incoming → List Exchange → Type 0
  AllExchanged r [] [] = Unit
  AllExchanged r (req ∷ reqs) (x ∷ xs) = Exchanged r req x × AllExchanged r reqs xs
  AllExchanged r [] (x ∷ xs) = ⊥
  AllExchanged r (req ∷ reqs) [] = ⊥

  -- Whatever requests come one after the other, with one cache of networks that is consistent when
  -- the first comes and settings of trusted networks without commas, each is answered by itself.
  -- One that no route serves is answered 404 and nothing is sent upstream. Any other is sent to the
  -- target of the first of the routes with the longest prefix, with its timeout, with the headers
  -- about the client's address, which is believed from a header only if a trusted network holds the
  -- connecting address. Its answer is the upstream's or, if there is none, 502 with the mark
  -- Error-Source, which shows nothing of the route's upstream settings unless the route is debugged.
  pub serve_requests-AllExchanged :
      (r : Router) (cache : Cache net) (reqs : List Incoming)
      → IsConsistent net cache
      → All LacksComma r.routes
      → AllExchanged r reqs (serve_requests lib r cache reqs)
  unfolding serve_requests handle
  serve_requests-AllExchanged r cache [] c l = tt
  serve_requests-AllExchanged r cache (req ∷ reqs) c l =
      let a = serve_http r req.host req.path in
      let (this, kept) =
        respond-Exchanged r cache req a c l (serve_http-Answers r req.host req.path) in
      (this, serve_requests-AllExchanged r (respond_with lib r cache req a).1 reqs kept l)
