-- ===== src/Proxy/Gateway.antt =====
-- proxy/reverse_proxy.go: a request from `Router.ServeHTTP` to its answer, with the answer of the
-- function that `createErrorHandler` returns. Package net, the rest of `httputil.ReverseProxy` with
-- the transports, and the writers of answers are a parameter.
pub mod Exchanged
mod Tests
use edged.Base.{
  ℕ, Option, none, some, List, [], ◌∷◌, ◌++◌, if◌then◌else◌, is_empty, Bytes, codes, split, Header,
  header_set,
}
use edged.Config.{RouteConfig}
use edged.Proxy.Router.{
  RouteEntry, RequestContext, Response, not_found, proxied, Router, serve_http,
}
use edged.Proxy.ClientIp.{NetLib, Incoming, Cache}
use edged.Proxy.Director.{Outgoing, rewrite_request}

pub record Answer : Type 0 where
  pub status : ℕ
  pub header : Header
  pub body : Bytes

-- What is sent to an upstream, if anything, and what is answered.
pub record Exchange : Type 0 where
  pub sent : Option Outgoing
  pub answer : Answer

pub record GatewayLib : Type 1 where
  pub net : NetLib
  -- the copy of the request that `ReverseProxy` gives to `Rewrite` as `pr.Out`
  pub out_of : Incoming → Outgoing
  -- the answer that the entry's transport gets from the upstream within the context, as it is
  -- passed on; `none` where the error handler is called
  pub forward : RouteEntry → RequestContext → Outgoing → Option Answer
  -- `http.Error`
  pub http_error : Bytes → ℕ → Answer
  -- `json.Marshal` of a map of strings
  pub marshal : List (Bytes × Bytes) → Option Bytes

abbrev pub first : List Bytes → Bytes
first [] = []
first (w ∷ ws) = w

abbrev pub error_source : Bytes
error_source = codes "Error-Source"

abbrev pub socks5_or_none : RouteConfig → Bytes
socks5_or_none rc =
    if is_empty rc.upstream_socks5_proxy then codes "none" else rc.upstream_socks5_proxy

-- The map `errResponse`.
unfoldable pub error_response : RouteConfig → Bytes → List (Bytes × Bytes)
error_response rc remote_addr =
    let fields : List (Bytes × Bytes) =
      (codes "error", codes "502 Bad Gateway")
      ∷ (codes "message", codes "Failed to reach upstream service")
      ∷ (codes "client", first (split b':' remote_addr))
      ∷ [] in
    if rc.debug
    then fields ++ (codes "upstream", rc.upstream) ∷ (codes "socks5_proxy", socks5_or_none rc) ∷ []
    else fields

abbrev pub no_route : Bytes → Bytes
no_route host =
    codes "404 Not Found: No reverse proxy route configured for host '" ++ (host ++ codes "'")

module _ (lib : GatewayLib) where
  open lib use {net, out_of, forward, http_error, marshal}

  -- The error handler.
  unfoldable pub error_answer : RouteConfig → Bytes → Answer
  error_answer rc remote_addr = record {
    status = 502;
    header =
        header_set (header_set [] (codes "Content-Type") (codes "application/json")) error_source
          (codes "edge");
    body = elim (marshal (error_response rc remote_addr)) [
      | none ↦ codes "Server Error!"
      | some body ↦ body
    ];
  }

  -- `bestMatch.handler.ServeHTTP(w, req)`, for the rewritten request.
  unfoldable pub answer_of : RouteEntry → RequestContext → Bytes → Outgoing → Answer
  answer_of e ctx remote_addr out = elim (forward e ctx out) [
    | none ↦ error_answer e.config remote_addr
    | some a ↦ a
  ]

  unfoldable pub proxy_request :
      Router → RouteEntry → RequestContext → Cache net → Incoming → Exchange × Cache net
  proxy_request r e ctx cache req =
      let (out, cache') = rewrite_request net r.protocol e.target e.config cache req (out_of req) in
      (record { sent = some out; answer = answer_of e ctx req.remote_addr out }, cache')

  -- The part of `ServeHTTP` behind the choice of the route.
  unfoldable pub respond_with : Router → Cache net → Incoming → Response → Exchange × Cache net
  respond_with r cache req (not_found host) =
      (record { sent = none; answer = http_error (no_route host) 404 }, cache)
  respond_with r cache req (proxied e ctx) = proxy_request r e ctx cache req

  unfoldable pub handle : Router → Cache net → Incoming → Exchange × Cache net
  handle r cache req = respond_with r cache req (serve_http r req.host req.path)

  -- Requests one after the other, with the cache that the ones before have left.
  unfoldable pub serve_requests : Router → Cache net → List Incoming → List Exchange
  serve_requests r cache [] = []
  serve_requests r cache (req ∷ reqs) =
      let (x, cache') = handle r cache req in x ∷ serve_requests r cache' reqs
