-- ===== src/Proxy/Passthrough/Crashing.antt =====
-- Where `handleConn` panics.
use edged.Base.{
  ◌≡◌, refl, ap, ◌↔◌, true, false, Option, some, Bytes, length, Run, ok, panic, no_fuel, ◌>>=◌,
  on_branches, on_option,
}
use mathlib.Core.Path.{subst}
use edged.Tls.Sni.{extract_sni, is_tls_handshake}
use edged.Tls.Sni.Safety.{extract_sni-panic_iff}
use edged.Proxy.Passthrough.{
  DialLib, Listener, Peer, route_conn, converse, handle_conn, Course, behind_calls, named,
  close_conn,
}

abbrev pub close_behind : Run Course → Run Course
close_behind r = do course ← r; ok (close_conn course)

-- The first read gives a buffer of 43 bytes that passes the handshake test.
pub record Truncated (peer : Peer) : Type 0 where
  pub armed : peer.deadline_error ≡ false
  pub bytes : Bytes
  pub read : peer.first_read ≡ some bytes
  pub handshake : is_tls_handshake bytes ≡ ok true
  pub short : length bytes ≡ 43

-- `handleConn` panics exactly when the read deadline can be set and the first read gives a buffer of
-- 43 bytes that passes the handshake test of `ExtractSNI`, whatever the listener's routes are.
pub handle_conn-panic_iff :
    (net : DialLib) (l : Listener) (peer : Peer) → (handle_conn net l peer ≡ panic) ↔ Truncated peer
unfolding handle_conn converse
handle_conn-panic_iff net l peer =
    on_branches Says peer.deadline_error _ _
      (λ failed. ((λ e. absurd (cc e)), (λ t. absurd (let a = t.armed in cc (a, failed)))))
      λ armed.
        on_option Says peer.first_read _ _
          (λ nothing. ((λ e. absurd (cc e)), (λ t. absurd (let r = t.read in cc (r, nothing)))))
          λ bytes read.
            let iff = (extract_sni-panic_iff bytes).0 in
            (
              (λ e.
                  let p = iff.0 (onward bytes (extract_sni bytes) e) in
                  record {
                    armed = armed;
                    bytes = bytes;
                    read = read;
                    handshake = p.0;
                    short = p.1;
                  }),
              λ t.
                  ap
                    (λ r.
                      close_behind
                        (r >>= λ sni. ok (behind_calls named (route_conn net l peer bytes sni))))
                    (same_crash t bytes read),
            )
  where
    same_crash :
        (t : Truncated peer) (bytes : Bytes)
        → peer.first_read ≡ some bytes
        → extract_sni bytes ≡ panic
    same_crash t bytes read =
        let same : t.bytes ≡ bytes = (let r = t.read in cc) in
        ((extract_sni-panic_iff bytes).0).1 (
          subst (λ b. (is_tls_handshake b ≡ ok true) × (length b ≡ 43)) same (t.handshake, t.short))

    Says : Run Course → Type 0
    Says r = (close_behind r ≡ panic) ↔ Truncated peer

    onward :
        (bytes : Bytes) (r : Run (Option Bytes))
        → (close_behind do sni ← r; ok (behind_calls named (route_conn net l peer bytes sni)))
          ≡ panic
        → r ≡ panic
    onward bytes (ok sni) e = absurd (cc e)
    onward bytes panic e = refl
    onward bytes no_fuel e = absurd (cc e)
