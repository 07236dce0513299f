-- ===== src/Proxy/Passthrough.antt =====
-- proxy/tcp_proxy.go: a connection of the TLS-aware listener, from its first bytes to its end.
mod Upstream
pub mod Crashing
pub mod Phases
pub mod Closing
pub mod Forwarding
pub mod Accepting
mod Tests
unfoldable pub use Upstream.*
use edged.Base.{
  ℕ, ◌+◌, ◌*◌, Bool, true, false, not, ◌&&◌, ◌||◌, Option, none, some, List, [], ◌∷◌, ◌++◌,
  if◌then◌else◌, is_empty, Bytes, Run, ok, ◌>>=◌,
}
use edged.Base.Int.{ℤ, pos, ltb_ℤ}
use edged.Config.{RouteConfig}
use edged.Tls.Sni.{extract_sni}
use edged.Proxy.Hosts.{match_route_by_sni, proxy_protocol_enabled}
use edged.Proxy.Copying.{
  Round, CopyEnd, running, finished, canceled, write_failed, read_failed, Copied, copy_context,
}

-- The fields of `TLSPassThroughListener` that a connection reads; `serves` says that the handler and
-- the TLS configuration are there.
pub record Listener : Type 0 where
  pub address : Bytes
  pub routes : List RouteConfig
  pub serves : Bool
  pub proxy_protocol : Bytes

-- One direction of a pipe: in the round that takes the replayed bytes whether the context is done
-- and how the write ends, and all later rounds.
pub record Pump : Type 0 where
  pub start_done : Bool
  pub start_write_error : Option ℕ
  pub rounds : List Round

-- What the accepted connection and the network behind the route answer.
pub record Peer : Type 0 where
  pub deadline_error : Bool
  -- at most 4096 bytes; `none` for an error
  pub first_read : Option Bytes
  pub direct_addr : Bytes
  -- the address in the PROXY protocol header
  pub proxied_addr : Bytes
  pub handshakes : Bool
  pub upward : Pump
  pub downward : List Round

pub data Event : Type 0 where
  deadline_set : ℕ → Event
  peeked deadline_cleared handshaken served conn_closed group_done : Event
  upstream_event : UpstreamEvent → Event
  piped : CopyEnd × Copied → CopyEnd × Copied → Event

-- The reads of a `prependReaderConn`, whose buffer is larger than what is replayed: what was read
-- before comes whole in the first one, if there is any.
unfoldable pub through_prepend : Bytes → Pump → List Round
through_prepend bytes pump =
    if is_empty bytes
    then pump.rounds
    else record {
      done = pump.start_done;
      chunk = bytes;
      read_error = none;
      write_error = pump.start_write_error;
    }
      ∷ pump.rounds

-- The calls so far, and whether the function has returned.
abbrev pub Course : Type 0
Course = List Event × Bool

abbrev pub behind_calls : List Event → Course → Course
behind_calls before (events, returned) = (before ++ events, returned)

-- A deferred `wg.Done()` has been called for the copy.
abbrev pub has_ended : CopyEnd → Bool
has_ended running = false
has_ended finished = true
has_ended canceled = true
has_ended write_failed = true
has_ended read_failed = true

-- `wg.Wait()`, and the deferred `Close` behind it, which is not reached while a copy runs on.
unfoldable pub wait_copies : CopyEnd × Copied → CopyEnd × Copied → Course
wait_copies up down =
    if has_ended up.0 && has_ended down.0
    then (piped up down ∷ upstream_event upstream_closed ∷ [], true)
    else (piped up down ∷ [], false)

abbrev pub nothing : Copied
nothing = record { written = []; deadlines = 0 }

abbrev pub upstream_events : List UpstreamEvent → List Event
upstream_events [] = []
upstream_events (e ∷ events) = upstream_event e ∷ upstream_events events

unfoldable pub idle_timeout_of : RouteConfig → ℤ
idle_timeout_of route =
    if ltb_ℤ (pos 0) route.passthrough_idle_timeout
    then route.passthrough_idle_timeout
    else default_passthrough_idle_timeout

-- `serveTLS`
unfoldable pub serve_tls : Listener → Peer → List Event
serve_tls l peer =
    if not l.serves
    then []
    else if not peer.handshakes
    then handshaken ∷ []
    else handshaken ∷ served ∷ []

unfoldable pub client_addr_of : Listener → Peer → Bytes
client_addr_of l peer =
    if proxy_protocol_enabled l.proxy_protocol then peer.proxied_addr else peer.direct_addr

-- The calls up to the server name.
abbrev pub named : List Event
named = deadline_set 10 ∷ peeked ∷ deadline_cleared ∷ []

-- The deferred calls of `handleConn`, once its body has returned.
unfoldable pub close_conn : Course → Course
close_conn (events, true) = (events ++ conn_closed ∷ group_done ∷ [], true)
close_conn (events, false) = (events, false)

module _ (net : DialLib) where
  -- `proxyTCP`, with the two copies one after the other: neither reads what the other writes.
  unfoldable pub proxy_tcp : RouteConfig → Bytes → Bytes → Peer → Course
  proxy_tcp route client_addr replayed peer =
      let (opened, events) = open_upstream net route client_addr in
      let idle = idle_timeout_of route in
      let copies =
        wait_copies (copy_context true idle (through_prepend replayed peer.upward) nothing)
          (copy_context true idle peer.downward nothing) in
      elim opened [
        | unreachable ↦ (upstream_events events, true)
        | header_refused ↦ (upstream_events events ++ upstream_event upstream_closed ∷ [], true)
        | ready ↦ behind_calls (upstream_events events) copies
      ]

  -- The part of `handleConn` behind the name.
  unfoldable pub route_conn : Listener → Peer → Bytes → Option Bytes → Course
  route_conn l peer bytes sni =
      let host : Bytes = elim sni [ none ↦ [] | some name ↦ name ] in
      elim (match_route_by_sni host l.routes) [
        | none ↦ ([], true)
        | some route ↦
            if route.no_tls_termination
            then proxy_tcp route (client_addr_of l peer) bytes peer
            else (serve_tls l peer, true)
      ]

  -- The body of `handleConn`, without its deferred calls.
  unfoldable pub converse : Listener → Peer → Run Course
  converse l peer =
      if peer.deadline_error then ok (deadline_set 10 ∷ [], true) else elim peer.first_read [
        | none ↦ ok (deadline_set 10 ∷ peeked ∷ [], true)
        | some bytes ↦ do
          sni ← extract_sni bytes
          ok (behind_calls named (route_conn l peer bytes sni))
      ]

  -- `handleConn`
  unfoldable pub handle_conn : Listener → Peer → Run Course
  handle_conn l peer = do course ← converse l peer; ok (close_conn course)
