-- ===== src/Proxy/Passthrough/Closing.antt =====
-- The calls that a connection makes are a run of the state machine.
use edged.Base.{
  ◌≡◌, ◌≢◌, ◌⊎◌, inl, inr, ◌&&◌, and_true, refl, Bool, true, false, not, Option, none, some, List,
  [], ◌∷◌, ◌++◌, Bytes, Run, ok, panic, no_fuel, ◌>>=◌, if◌then◌else◌, on_branches, on_option,
  is_empty,
}
use edged.Config.{RouteConfig}
use edged.Tls.Sni.{extract_sni}
use edged.Tls.Sni.Safety.{extract_sni-panic_iff}
use edged.Proxy.Copying.{
  CopyEnd, running, finished, canceled, write_failed, read_failed, Copied, copy_context,
}
use edged.Proxy.Router.{Url}
use edged.Proxy.Hosts.{match_route_by_sni, proxy_protocol_enabled}
use edged.Proxy.Passthrough.{
  DialLib, UpstreamEvent, dialed, header_sent, upstream_closed, Opened, unreachable, header_refused,
  ready, dial_upstream, connected, open_upstream, send_proxy_protocol_header, Listener, Peer, Event,
  conn_closed, group_done, upstream_event, upstream_events, proxy_tcp, serve_tls, route_conn,
  converse, handle_conn, Course, behind_calls, named, close_conn, wait_copies, has_ended,
  idle_timeout_of, through_prepend, nothing, proxy_protocol_version,
}
use edged.Proxy.Passthrough.Phases.{
  Phase, accepted, known, over, Idle, idle_armed, idle_waited, idle_known, idle_refused,
  idle_released, idle_secured, idle_answered, arm, wait, clear, fail, connect, announce, relay,
  go_on, Reached, when_opened, when_announced, settling, unsettled, Concluded, give_up, release,
  secure, answer, close, leave, Runs, stop, ◌then◌, EndsWith, Settles, Runs-append, then-Settles,
  settled,
}

-- What `proxyTCP` has done when the upstream is open or is not.
data Opens : Opened × List UpstreamEvent → Type 0 where
  not_dialed : Opens (unreachable, [])
  missed : (by : Option Url) (addr : Bytes) → Opens (unreachable, dialed by addr false ∷ [])
  bare : (by : Option Url) (addr : Bytes) → Opens (ready, dialed by addr true ∷ [])
  headed :
      (by : Option Url) (addr header : Bytes)
      → Opens (ready, dialed by addr true ∷ header_sent header ∷ [])
  unheaded :
      (by : Option Url) (addr header : Bytes)
      → Opens (header_refused, dialed by addr true ∷ header_sent header ∷ [])

data Dials : Option Bytes × List UpstreamEvent → Type 0 where
  no_dial : Dials (none, [])
  failing : (by : Option Url) (addr : Bytes) → Dials (none, dialed by addr false ∷ [])
  dialing : (by : Option Url) (addr : Bytes) → Dials (some addr, dialed by addr true ∷ [])

connected-Dials : (by : Option Url) (addr : Bytes) (b : Bool) → Dials (connected by addr b)
connected-Dials by addr true = dialing by addr
connected-Dials by addr false = failing by addr

dial_upstream-Dials : (net : DialLib) (upstream by : Bytes) → Dials (dial_upstream net upstream by)
unfolding dial_upstream
dial_upstream-Dials net upstream by =
    on_option Dials (net.parse_url upstream) _ _ (λ _. no_dial)
      λ url _.
        on_branches Dials (is_empty by) _ _ (λ _. connected-Dials none _ _)
          λ _.
            on_option Dials (net.parse_url by) _ _ (λ _. no_dial)
              λ proxy_url _.
                on_branches Dials (net.has_dialer proxy_url) _ _ (λ _. connected-Dials _ _ _)
                  (λ _. no_dial)

open_upstream-Opens :
    (net : DialLib) (route : RouteConfig) (client_addr : Bytes)
    → Opens (open_upstream net route client_addr)
unfolding open_upstream send_proxy_protocol_header
open_upstream-Opens net route client_addr =
    behind (dial_upstream net route.upstream route.upstream_socks5_proxy)
      (dial_upstream-Dials _ _ _)
  where
    written :
        (by : Option Url) (addr header : Bytes) (b : Bool)
        → Opens
            ((if b then ready else header_refused), dialed by addr true ∷ header_sent header ∷ [])
    written by addr header true = headed by addr header
    written by addr header false = unheaded by addr header

    behind :
        (d : Option Bytes × List UpstreamEvent)
        → Dials d
        → Opens (elim d.0 [
          | none ↦ (unreachable, d.1)
          | some addr ↦
              if proxy_protocol_enabled route.proxy_protocol
              then (let (written, sent) =
                    send_proxy_protocol_header net addr client_addr
                      (proxy_protocol_version route.proxy_protocol) in
                  ((if written then ready else header_refused), d.1 ++ sent))
              else (ready, d.1)
        ])
    behind _ no_dial = not_dialed
    behind _ (failing by addr) = missed by addr
    behind _ (dialing by addr) =
        on_branches Opens (proxy_protocol_enabled route.proxy_protocol) _ _
          (λ _. written by addr _ _) (λ _. bare by addr)

pub has_ended-running : (e : CopyEnd) → has_ended e ≡ true → e ≢ running
has_ended-running running h is = absurd (cc h)
has_ended-running finished h is = absurd (cc is)
has_ended-running canceled h is = absurd (cc is)
has_ended-running write_failed h is = absurd (cc is)
has_ended-running read_failed h is = absurd (cc is)

-- A copy runs on where not both have ended.
pub one_runs :
    (a b : CopyEnd) → (has_ended a && has_ended b) ≡ false → (a ≡ running) ⊎ (b ≡ running)
one_runs running b h = inl refl
one_runs finished running h = inr refl
one_runs canceled running h = inr refl
one_runs write_failed running h = inr refl
one_runs read_failed running h = inr refl
one_runs _ _ h = absurd (cc h)

wait_copies-Settles :
    {p : Phase} (up down : CopyEnd × Copied) → Reached p → Settles p (wait_copies up down)
unfolding wait_copies
wait_copies-Settles {p} up down reached =
    on_branches (Settles p) (has_ended up.0 && has_ended down.0) _ _
      (λ both.
        let ends = and_true _ _ both in
        then-Settles
          (relay up down reached (has_ended-running up.0 ends.0) (has_ended-running down.0 ends.1))
          (then-Settles release (settled idle_released)))
      (λ h. unsettled (go_on up down reached (one_runs up.0 down.0 h) then stop))

proxy_tcp-Settles :
    (net : DialLib) (route : RouteConfig) (client_addr replayed : Bytes) (peer : Peer)
    → Settles known (proxy_tcp net route client_addr replayed peer)
unfolding proxy_tcp
proxy_tcp-Settles net route client_addr replayed peer =
    behind (open_upstream net route client_addr) (open_upstream-Opens net route client_addr)
  where
    behind :
        (o : Opened × List UpstreamEvent)
        → Opens o
        → Settles known (elim o.0 [
          | unreachable ↦ (upstream_events o.1, true)
          | header_refused ↦ (upstream_events o.1 ++ upstream_event upstream_closed ∷ [], true)
          | ready ↦ behind_calls (upstream_events o.1) (
              wait_copies
                (copy_context true
                  (idle_timeout_of route)
                  (through_prepend replayed peer.upward)
                  nothing)
                (copy_context true (idle_timeout_of route) peer.downward nothing))
        ])
    behind _ not_dialed = settled idle_known
    behind _ (missed by addr) = then-Settles (fail by addr) (settled idle_refused)
    behind _ (bare by addr) = then-Settles (connect by addr) (wait_copies-Settles _ _ when_opened)
    behind _ (headed by addr header) =
        then-Settles (connect by addr)
          (then-Settles (announce header) (wait_copies-Settles _ _ when_announced))
    behind _ (unheaded by addr header) =
        then-Settles (connect by addr)
          (then-Settles (announce header) (then-Settles give_up (settled idle_released)))

serve_tls-Settles : (l : Listener) (peer : Peer) → Settles known (serve_tls l peer, true)
unfolding serve_tls
serve_tls-Settles l peer =
    on_branches Good (not l.serves) _ _ (λ _. settled idle_known)
      λ _.
        on_branches Good (not peer.handshakes) _ _ (λ _. then-Settles secure (settled idle_secured))
          (λ _. then-Settles secure (then-Settles answer (settled idle_answered)))
  where
    Good : List Event → Type 0
    Good events = Settles known (events, true)

route_conn-Settles :
    (net : DialLib) (l : Listener) (peer : Peer) (bytes : Bytes) (sni : Option Bytes)
    → Settles known (route_conn net l peer bytes sni)
unfolding route_conn
route_conn-Settles net l peer bytes sni =
    on_option (Settles known) (match_route_by_sni _ l.routes) _ _ (λ _. settled idle_known)
      λ route _.
        on_branches (Settles known) route.no_tls_termination _ _
          (λ _. proxy_tcp-Settles net route _ bytes peer) (λ _. serve_tls-Settles l peer)

converse-Settles :
    (net : DialLib) (l : Listener) (peer : Peer) → EndsWith (Settles accepted) (converse net l peer)
unfolding converse
converse-Settles net l peer =
    on_branches Good peer.deadline_error _ _ (λ _. then-Settles (arm 10) (settled idle_armed))
      λ _.
        on_option Good peer.first_read _ _
          (λ _. then-Settles (arm 10) (then-Settles wait (settled idle_waited)))
          (λ bytes _. behind bytes (extract_sni bytes) (extract_sni-panic_iff bytes).1)
  where
    Good : Run Course → Type 0
    Good = EndsWith (Settles accepted)

    behind :
        (bytes : Bytes) (r : Run (Option Bytes))
        → r ≢ no_fuel
        → Good (do sni ← r; ok (behind_calls named (route_conn net l peer bytes sni)))
    behind bytes (ok sni) n =
        then-Settles (arm 10)
          (then-Settles wait (then-Settles clear (route_conn-Settles net l peer bytes sni)))
    behind bytes panic n = tt
    behind bytes no_fuel n = absurd (n refl)

closing : {p : Phase} → Idle p → Runs p (conn_closed ∷ group_done ∷ []) over
closing i = close i then leave then stop

-- For every listener and peer, `handle_conn` panics or gives a list of calls, which is a run of the
-- phases above: the deadline is set before the first read and cleared before anything is dialed or
-- served, and a PROXY protocol header is sent only over an upstream that was reached and before
-- anything is piped. Where it has returned, the run goes to the end: the upstream is closed behind
-- every successful dial, both copies having ended if anything was piped, then the connection, and
-- then the wait group is told. It has not returned only where a copy runs on in what is watched of
-- it, and then the upstream and the connection stay open.
pub handle_conn-Runs :
    (net : DialLib) (l : Listener) (peer : Peer) → EndsWith Concluded (handle_conn net l peer)
unfolding handle_conn close_conn
handle_conn-Runs net l peer = behind (converse net l peer) (converse-Settles net l peer)
  where
    concluding : (course : Course) → Settles accepted course → Concluded (close_conn course)
    concluding _ (settling i r) = Runs-append r (closing i)
    concluding _ (unsettled r) = r

    behind :
        (r : Run Course)
        → EndsWith (Settles accepted) r
        → EndsWith Concluded (do course ← r; ok (close_conn course))
    behind (ok course) s = concluding course s
    behind panic s = tt
    behind no_fuel s = elim s [ ]
