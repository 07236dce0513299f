-- ===== src/Tls/Hello/ReadBack.antt =====
-- What `Unmarshal` leaves in the receiver, in closed form, and that the two readers agree.
use Prim.Native.Nat.{min}
use edged.Base.{
  ℕ, zero, suc, ◌+◌, ◌/◌, ◌%◌, ◌≤◌, ◌-◌, ◌≡◌, refl, ◌∙◌, ap, List, [], ◌∷◌, ◌++◌, some, arith,
  length, Bytes, set, take, drop, length-append, append-nil, index, uint16_at, slice, slice_from,
  Run, ok, At-index, At-step, At-slice, At-slice_from, At-start, append_assoc, get_elem?,
  lt→ltb_false,
}
use edged.Tls.Wire.{
  At-put16, Extension, server_name, other, HelloText, put16, WellFormed, first_name,
  length-put_extensions, put_handshake, put_record, body_size, put_body,
}
use edged.Tls.Sni.{extract_sni}
use edged.Tls.Sni.RoundTrip.{extract_sni-put_record}
use edged.Tls.Hello.Receiver.{ClientHello, Checked, value}
use edged.Tls.Hello.{check_headers, unmarshal_hello, unmarshal_handshake, unmarshal}
use edged.Tls.Hello.RoundTrip.{
  add_name, add_names, with_fields, block_at, parse_client_hello_body-put, unmarshal_extensions-put,
}

-- The host names of a hello, in order.
abbrev pub host_names : List Extension → List Bytes
host_names [] = []
host_names (server_name name ∷ es) = name ∷ host_names es
host_names (other kind body ∷ es) = host_names es

-- The receiver after a hello was read into it: at most as many names as there are slots, and the
-- slots that no name took as they were.
abbrev pub read_back : HelloText → ClientHello → ClientHello
read_back h out =
    let found = host_names h.extensions in
    let slots = out.sni_host_names in
    record (with_fields h out) {
      sni_host_names = take (length slots) found ++ drop (length found) slots;
      sni_count = min (length slots) (length found);
    }

set-append :
    (done old : List Bytes) (x name : Bytes)
    → set (done ++ x ∷ old) (length done) name ≡ (done ++ name ∷ []) ++ old
set-append [] old x name = refl
set-append (d ∷ done) old x name = ap (◌∷◌ d) (set-append done old x name)

drop-nil : (n : ℕ) → drop {A = Bytes} n [] ≡ []
drop-nil zero = refl
drop-nil (suc n) = refl

-- `done` are the slots that are filled.
add_names-closed :
    (es : List Extension) (done old : List Bytes) (out : ClientHello)
    → out.sni_host_names ≡ done ++ old
    → out.sni_count ≡ length done
    → add_names es out ≡ record out {
      sni_host_names =
          done ++ (take (length old) (host_names es) ++ drop (length (host_names es)) old);
      sni_count = length done + min (length old) (length (host_names es));
    }
add_names-closed [] done [] out n c = ground (arith, append-nil done)
add_names-closed [] done (x ∷ old) out n c = ground arith
add_names-closed (other kind body ∷ es) done old out n c = add_names-closed es done old out n c
add_names-closed (server_name name ∷ es) done [] out n c =
    let full : add_name name out ≡ out = ground (arith, ap length n, length-append done []) in
    rw full
      (add_names-closed es done [] out n c ∙ ground (arith, drop-nil (length (host_names es))))
add_names-closed (server_name name ∷ es) done (x ∷ old) out n c =
    let o = record out {
      sni_host_names = (done ++ name ∷ []) ++ old;
      sni_count = length done + 1;
    } in
    let added : add_name name out ≡ o =
      ground (arith, ap length n, length-append done (x ∷ old), set-append done old x name) in
    rw added (
      add_names-closed es (done ++ name ∷ []) old o refl
        (omega (arith, length-append done (name ∷ [])))
      ∙ ground (
        arith,
        length-append done (name ∷ []),
        append_assoc done (name ∷ [])
            (take (length old) (host_names es) ++ drop (length (host_names es)) old),
      ))

module _ (h : HelloText) (rest : Bytes) (out : ClientHello) (w : WellFormed h) where
  unmarshal_hello-put : unmarshal_hello (put_body h rest) out ≡ ok (read_back h out, value tt)
  unfolding unmarshal_hello
  unmarshal_hello-put =
      let (parsed, block) = parse_client_hello_body-put h w rest out in
      let o = record (with_fields h out) { sni_count = 0 } in
      let closed = add_names-closed h.extensions [] out.sni_host_names o refl refl in
      ground (
        arith,
        parsed,
        unmarshal_extensions-put (with_fields h out) rest h (block_at h w rest out) w block,
        closed,
      )

  unmarshal_handshake-put :
      unmarshal_handshake (put_handshake h rest) out ≡ ok (read_back h out, value tt)
  unfolding unmarshal_handshake index
  unmarshal_handshake-put =
      let handshake = put_handshake h rest in
      let body_field = (body_size h % 65536 / 256) ∷ (body_size h % 65536 % 256) ∷ [] in
      let body =
        At-step 0 (1 ∷ (body_size h / 65536) ∷ body_field) (put_body h rest) 4 (At-start handshake)
          refl in
      ground (arith, At-slice_from 4 (put_body h rest) body, unmarshal_hello-put)

check_headers-ok :
    (b : Bytes) (out : ClientHello)
    → 9 ≤ length b
    → index b 0 ≡ ok 22
    → check_headers b out ≡ ok (out, value tt)
unfolding check_headers
check_headers-ok b out long kind = rw (lt→ltb_false (length b) 9 long, kind) refl

-- The steps of `Unmarshal` in front of the handshake message.
unmarshal-message :
    (b handshake field : Bytes) (n : ℕ) (out : ClientHello)
    (r : Run (ClientHello × Checked (Unit {0})))
    → 9 ≤ length b
    → index b 0 ≡ ok 22
    → slice b 3 5 ≡ ok field
    → uint16_at field 0 ≡ ok n
    → n ≤ length b - 5
    → slice_from b 5 ≡ ok handshake
    → unmarshal_handshake handshake out ≡ r
    → unmarshal b out ≡ r
unfolding unmarshal
unmarshal-message b handshake field n out r long kind size read fits rest e =
    ground (arith, check_headers-ok b out)

-- On the bytes of a well-formed ClientHello, with anything behind them, `Unmarshal` returns no
-- error and stores every field, and the host names that the slots can hold.
pub unmarshal-put_record :
    (h : HelloText) (rest : Bytes) (out : ClientHello)
    → WellFormed h
    → unmarshal (put_record h rest) out ≡ ok (read_back h out, value tt)
unmarshal-put_record h rest out w =
    let b = put_record h rest in
    let handshake = put_handshake h rest in
    let size_field = ((4 + body_size h) / 256) ∷ ((4 + body_size h) % 256) ∷ [] in
    let field =
      At-step 0 (22 ∷ 3 ∷ 1 ∷ []) (put16 (4 + body_size h) handshake) 3 (At-start b) refl in
    let message = At-step 0 (22 ∷ 3 ∷ 1 ∷ size_field) handshake 5 (At-start b) refl in
    let block = (parse_client_hello_body-put h w rest out).1 in
    unmarshal-message b handshake size_field (4 + body_size h) out _ (omega arith)
      (At-index 0 22 _ (At-start b)) (At-slice 3 size_field handshake 5 field refl)
      (At-put16 0 (4 + body_size h) [] (At-start size_field))
      (omega (arith, block.size, length-put_extensions h.extensions rest))
      (At-slice_from 5 handshake message) (unmarshal_handshake-put h rest out w)

-- The two readers agree: on the bytes of a well-formed ClientHello with a host name, read into a
-- receiver with four slots, `Unmarshal` stores in its first slot the name that `ExtractSNI` returns.
pub extract_sni-unmarshal :
    (h : HelloText) (rest name : Bytes) (out : ClientHello)
    → WellFormed h
    → length out.sni_host_names ≡ 4
    → first_name h.extensions ≡ some name
    → (extract_sni (put_record h rest) ≡ ok (some name))
      × ((read : ClientHello) × (unmarshal (put_record h rest) out ≡ ok (read, value tt))
          × (get_elem? read.sni_host_names 0 ≡ some name))
extract_sni-unmarshal h rest name out w slots found = (
  extract_sni-put_record h rest w ∙ ap ok found,
  (
    read_back h out,
    unmarshal-put_record h rest out w,
    first_slot h.extensions out.sni_host_names slots found,
  ),
)
  where
    first_slot :
        (es : List Extension) (old : List Bytes)
        → length old ≡ 4
        → first_name es ≡ some name
        → get_elem? (take (length old) (host_names es) ++ drop (length (host_names es)) old) 0
          ≡ some name
    first_slot [] old n e = cc
    first_slot (server_name x ∷ es) [] n e = absurd (omega arith)
    first_slot (server_name x ∷ es) (o ∷ old) n e = e
    first_slot (other kind body ∷ es) old n e = first_slot es old n e
