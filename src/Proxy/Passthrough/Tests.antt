-- ===== src/Proxy/Passthrough/Tests.antt =====
-- Connections of the listener on concrete bytes.
use edged.Base.{
  ◌≤◌, ◌≡◌, refl, ◌↔◌, true, false, none, some, List, [], ◌∷◌, ◌++◌, Bytes, codes, ok, panic,
}
use edged.Config.{RouteConfig}
use edged.Config.Samples.{sample_route}
use edged.Tls.Samples.{site, site_hello, site_hello-WellFormed, cut_hello}
use edged.Tls.Wire.{put_record}
use edged.Proxy.Copying.{
  CopyEnd, running, finished, Copied, timeout, eof, copy_context, set_deadline, after_read,
  write_chunk,
}
use edged.Base.Int.{pos}
use edged.Proxy.Copying.Delivery.{Accounts}
use edged.Proxy.Hosts.{match_route_by_sni, find_route, match_host_shared, proxy_protocol_enabled}
use edged.Proxy.Passthrough.{
  DialLib, dialed, header_sent, ready, UpstreamEvent, client_addr_of, dial_upstream, dial_address,
  send_proxy_protocol_header, proxy_protocol_version, open_upstream, Listener, Peer, handle_conn,
  atoi, digits, Course, wait_copies, nothing, piped,
}
use edged.Proxy.Passthrough.Accepting.{
  at, waiting, returned, accept, cancel, close, drain, add, Reaches, here, ◌next◌, serving, pending,
  Reaches-pending_le,
}
use edged.Proxy.Passthrough.Phases.{EndsWith, Concluded}
use edged.Proxy.Passthrough.Closing.{handle_conn-Runs}
use edged.Proxy.Passthrough.Crashing.{Truncated, handle_conn-panic_iff}
use edged.Proxy.Passthrough.Forwarding.{PassedThrough, handle_conn-put_record}

-- Every address can be reached, by nobody's help.
abbrev open_net : DialLib
open_net = record {
  parse_url = λ s. some (record { scheme = []; host = s; path = [] });
  has_dialer = λ url. false;
  dial_by = λ url addr. false;
  dial = λ n addr. true;
  remote_addr = λ addr. addr;
  header_from_addrs = λ version from to. version ∷ from ++ to;
  writes = λ addr bytes. true;
}

abbrev site_route : RouteConfig
site_route = record (sample_route (codes "*.org") (codes "/")) {
  upstream = codes "10.0.0.7:443";
  no_tls_termination = true;
  proxy_protocol = codes "2";
}

abbrev listener : Listener
listener = record {
  address = codes ":443";
  routes = site_route ∷ [];
  serves = true;
  proxy_protocol = codes "none";
}

abbrev peer : Bytes → Peer
peer bytes = record {
  deadline_error = false;
  first_read = some bytes;
  direct_addr = codes "192.0.2.7:5000";
  proxied_addr = [];
  handshakes = true;
  upward = record {
    start_done = false;
    start_write_error = none;
    rounds =
        record { done = false; chunk = codes "ab"; read_error = some eof; write_error = none } ∷ [];
  };
  downward =
      record { done = false; chunk = codes "c"; read_error = some timeout; write_error = none }
      ∷ record { done = false; chunk = []; read_error = some eof; write_error = none }
      ∷ [];
}

handle_conn-Runs_example :
    EndsWith Concluded (handle_conn open_net listener (peer (put_record site_hello (1 ∷ []))))
handle_conn-Runs_example =
    handle_conn-Runs open_net listener (peer (put_record site_hello (1 ∷ [])))

handle_conn-panic_iff_example :
    (handle_conn open_net listener (peer cut_hello) ≡ panic) ↔ Truncated (peer cut_hello)
handle_conn-panic_iff_example = handle_conn-panic_iff open_net listener (peer cut_hello)

abbrev before : List UpstreamEvent
before =
    dialed none (codes "10.0.0.7:443") true
    ∷ header_sent (2 ∷ codes "192.0.2.7:500010.0.0.7:443")
    ∷ []

site_matched : match_route_by_sni site listener.routes ≡ some site_route
unfolding match_route_by_sni find_route match_host_shared edged.Base.normalize edged.Base.equal
    edged.Base.has_prefix edged.Base.has_suffix
site_matched = refl

site_opened :
    open_upstream open_net site_route
      (client_addr_of listener (peer (put_record site_hello (1 ∷ []))))
    ≡ (ready, before)
unfolding open_upstream client_addr_of dial_upstream dial_address send_proxy_protocol_header
    proxy_protocol_version atoi digits proxy_protocol_enabled
site_opened = refl

handle_conn-put_record_example :
    (up : CopyEnd × Copied) × (down : CopyEnd × Copied) × (course : Course) × (handle_conn open_net
        listener
        (peer (put_record site_hello (1 ∷ [])))
      ≡ ok course)
    × PassedThrough before up down course
    × Accounts (peer []).upward.rounds (put_record site_hello (1 ∷ [])) up
    × Accounts (peer []).downward [] down
handle_conn-put_record_example =
    handle_conn-put_record open_net listener (peer (put_record site_hello (1 ∷ []))) site_hello
      (1 ∷ []) site site_route before site_hello-WellFormed refl refl refl site_matched refl
      site_opened refl refl

-- One copy has ended and the other runs on: nothing is closed.
still_open :
    wait_copies (finished, nothing) (running, nothing)
    ≡ (piped (finished, nothing) (running, nothing) ∷ [], false)
unfolding wait_copies
still_open = refl

-- Both copies of the sample connection end.
both_ended :
    ((copy_context true (pos 30) (peer []).upward.rounds nothing).0 ≡ finished)
    × ((copy_context true (pos 30) (peer []).downward nothing).0 ≡ finished)
unfolding copy_context set_deadline after_read write_chunk
both_ended = (refl, refl)

-- A connection is accepted before the shutdown and counted after it.
racing : Reaches (serving 0) (at waiting false 1 returned)
racing = accept next cancel next close next drain next add next here

Reaches-pending_le_example : pending (at waiting false 1 returned) ≤ 1
Reaches-pending_le_example = Reaches-pending_le 0 racing refl
