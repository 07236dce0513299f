-- ===== src/Proxy/Passthrough/Forwarding.antt =====
-- A connection of the listener that is passed through.
use edged.Base.{
  ℕ, ◌≡◌, ◌≢◌, ◌⊎◌, ◌&&◌, and_true, refl, sym, ap, ◌∙◌, Bool, true, false, Option, none, some, List,
  [], ◌∷◌, ◌++◌, Bytes, ok, ◌>>=◌, on_branches, if-true, if-false, elim-some, is_empty, is_empty-eq,
}
use mathlib.Core.Path.{subst}
use edged.Base.Int.{ℤ}
use edged.Config.{RouteConfig}
use edged.Tls.Wire.{HelloText, WellFormed, put_record, first_name}
use edged.Tls.Sni.{extract_sni}
use edged.Tls.Sni.RoundTrip.{extract_sni-put_record}
use edged.Proxy.Hosts.{match_route_by_sni}
use edged.Proxy.Copying.{
  Round, CopyEnd, running, Copied, copy_context, write_chunk, after_read, set_deadline, add_bytes,
}
use edged.Proxy.Copying.Delivery.{Accounts, copy_context-Delivers, written-set_deadline}
use edged.Proxy.Passthrough.Closing.{has_ended-running, one_runs}
use edged.Proxy.Passthrough.Crashing.{close_behind}
use edged.Proxy.Passthrough.{
  DialLib, upstream_closed, ready, unreachable, header_refused, open_upstream, Listener, Pump, Peer,
  deadline_set, peeked, deadline_cleared, conn_closed, group_done, upstream_event, piped,
  upstream_events, through_prepend, nothing, proxy_tcp, client_addr_of, route_conn, converse,
  handle_conn, Course, behind_calls, named, close_conn, wait_copies, has_ended, UpstreamEvent,
  idle_timeout_of,
}

passing_round :
    (idle : ℤ) (bytes : Bytes) (rounds : List Round) (c : Copied) (done : Bool)
    (write_error : Option ℕ)
    → done ≡ false
    → write_error ≡ none
    → is_empty bytes ≡ false
    → copy_context true idle
        (record { done = done; chunk = bytes; read_error = none; write_error = write_error }
          ∷ rounds)
        c
      ≡ copy_context true idle rounds (add_bytes (set_deadline true idle c) bytes)
unfolding copy_context after_read write_chunk
passing_round idle bytes rounds c done write_error live writes filled =
    rw (live, writes, filled) refl

-- The round in which the bytes are replayed passes, if there is one.
replay-Accounts :
    (idle : ℤ) (bytes : Bytes) (pump : Pump)
    → pump.start_done ≡ false
    → pump.start_write_error ≡ none
    → Accounts pump.rounds bytes (copy_context true idle (through_prepend bytes pump) nothing)
unfolding through_prepend
replay-Accounts idle bytes pump live writes =
    on_branches (λ rounds. Accounts pump.rounds bytes (copy_context true idle rounds nothing))
      (is_empty bytes) _ _
      (λ e.
        subst (λ b. Accounts pump.rounds b (copy_context true idle pump.rounds nothing))
          (sym (is_empty-eq bytes e)) (copy_context-Delivers true idle pump.rounds nothing))
      (λ filled.
        subst (Accounts pump.rounds bytes)
          (sym (passing_round idle bytes pump.rounds nothing _ _ live writes filled))
          (subst (λ b. Accounts pump.rounds b (copy_context true idle pump.rounds full))
            (ap (λ b. b ++ bytes) (written-set_deadline true idle nothing))
            (copy_context-Delivers true idle pump.rounds full)))
  where
    full : Copied
    full = add_bytes (set_deadline true idle nothing) bytes

-- The calls of a connection that is passed through, and whether it has been closed: it is when
-- both copies have ended, and stays open while one of them runs on.
pub data PassedThrough (before : List UpstreamEvent) (up down : CopyEnd × Copied)
    : Course → Type 0 where
  ended :
      up.0 ≢ running
      → down.0 ≢ running
      → PassedThrough before up down (
        deadline_set 10
              ∷ peeked
              ∷ deadline_cleared
              ∷ (upstream_events before ++ piped up down ∷ upstream_event upstream_closed ∷ [])
            ++ conn_closed ∷ group_done ∷ [],
        true,
      )
  running_on :
      (up.0 ≡ running) ⊎ (down.0 ≡ running)
      → PassedThrough before up down (
        deadline_set 10
            ∷ peeked
            ∷ deadline_cleared
            ∷ (upstream_events before ++ piped up down ∷ []),
        false,
      )

wait_copies-PassedThrough :
    (before : List UpstreamEvent) (up down : CopyEnd × Copied)
    → PassedThrough before up down (
        close_conn
          (behind_calls named (behind_calls (upstream_events before) (wait_copies up down))))
unfolding wait_copies close_conn
wait_copies-PassedThrough before up down =
    on_branches
      (λ course.
        PassedThrough before up down
          (close_conn (behind_calls named (behind_calls (upstream_events before) course))))
      (has_ended up.0 && has_ended down.0) _ _
      (λ both.
        let ends = and_true _ _ both in
        ended (has_ended-running up.0 ends.0) (has_ended-running down.0 ends.1))
      (λ h. running_on (one_runs up.0 down.0 h))

converse-route :
    (net : DialLib) (l : Listener) (peer : Peer) (bytes : Bytes) (sni : Option Bytes)
    → peer.deadline_error ≡ false
    → peer.first_read ≡ some bytes
    → extract_sni bytes ≡ ok sni
    → handle_conn net l peer
      ≡ ok (close_conn (behind_calls named (route_conn net l peer bytes sni)))
unfolding handle_conn converse
converse-route net l peer bytes sni armed read known = ap close_behind (
    if-false _ _ armed
    ∙ elim-some _ _ read
    ∙ ap (λ r. r >>= λ s. ok (behind_calls named (route_conn net l peer bytes s))) known)

proxy_tcp-ready :
    (net : DialLib) (route : RouteConfig) (client_addr replayed : Bytes) (peer : Peer)
    (before : List UpstreamEvent)
    → open_upstream net route client_addr ≡ (ready, before)
    → proxy_tcp net route client_addr replayed peer
      ≡ behind_calls (upstream_events before) (
          wait_copies
            (copy_context true
              (idle_timeout_of route)
              (through_prepend replayed peer.upward)
              nothing)
            (copy_context true (idle_timeout_of route) peer.downward nothing))
unfolding proxy_tcp
proxy_tcp-ready net route client_addr replayed peer before e =
    ap
      (λ o. elim o.0 [
        | unreachable ↦ (upstream_events o.1, true)
        | header_refused ↦ (upstream_events o.1 ++ upstream_event upstream_closed ∷ [], true)
        | ready ↦ behind_calls (upstream_events o.1) (
            wait_copies
              (copy_context true (idle_timeout_of route) (through_prepend replayed peer.upward)
                nothing)
              (copy_context true (idle_timeout_of route) peer.downward nothing))
      ])
      e

-- The first bytes of a client are a well-formed ClientHello with a host name, and anything behind it;
-- the deadline can be set; the first route for the name is a passthrough route, its upstream can be
-- reached, and takes the PROXY protocol header if there is one; and the replayed bytes can be
-- written. Then the connection is piped to the upstream. The upstream gets the whole first read, in
-- front of what the client sends later, and the client gets what the upstream sends, each up to the
-- round in which the copy ends. When both copies have ended, the upstream and the connection are
-- closed, and while one of them runs on, neither is.
pub handle_conn-put_record :
    (net : DialLib) (l : Listener) (peer : Peer) (h : HelloText) (rest name : Bytes)
    (route : RouteConfig) (before : List UpstreamEvent)
    → WellFormed h
    → first_name h.extensions ≡ some name
    → peer.deadline_error ≡ false
    → peer.first_read ≡ some (put_record h rest)
    → match_route_by_sni name l.routes ≡ some route
    → route.no_tls_termination ≡ true
    → open_upstream net route (client_addr_of l peer) ≡ (ready, before)
    → peer.upward.start_done ≡ false
    → peer.upward.start_write_error ≡ none
    → (up : CopyEnd × Copied) × (down : CopyEnd × Copied) × (course : Course) × (handle_conn net l
          peer
        ≡ ok course)
      × PassedThrough before up down course
      × Accounts peer.upward.rounds (put_record h rest) up
      × Accounts peer.downward [] down
unfolding route_conn
handle_conn-put_record net l peer h rest name route before w known armed read matched through opened
      live writes =
    let bytes = put_record h rest in
    let idle = idle_timeout_of route in
    let up = copy_context true idle (through_prepend bytes peer.upward) nothing in
    let down = copy_context true idle peer.downward nothing in
    let found = ap (λ host. match_route_by_sni host l.routes) (elim-some _ _ known) ∙ matched in
    let routed =
      converse-route net l peer bytes (first_name h.extensions) armed read
        (extract_sni-put_record h rest w) in
    (
      up,
      down,
      close_conn (behind_calls named (behind_calls (upstream_events before) (wait_copies up down))),
      routed
          ∙ ap (λ course. ok (close_conn (behind_calls named course)))
              (elim-some _ _ found
                ∙ if-true _ _ through
                ∙ proxy_tcp-ready net route _ bytes peer before opened),
      wait_copies-PassedThrough before up down,
      replay-Accounts idle bytes peer.upward live writes,
      copy_context-Delivers true idle peer.downward nothing,
    )
