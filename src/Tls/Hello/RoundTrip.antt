-- ===== src/Tls/Hello/RoundTrip.antt =====
-- `Unmarshal` on a written ClientHello reads back every field of it.
use mathlib.Core.Path.{subst}
use edged.Base.{
  ℕ, zero, suc, ◌+◌, ◌*◌, ◌/◌, ◌<◌, ◌≡◌, refl, List, [], ◌∷◌, ◌++◌, arith, length, Bytes, set,
  length-append, append-nil, slice, ok, At, At-index, At-step, At-slice, At-start, ltb,
  if◌then◌else◌,
}
use edged.Tls.Wire.{
  At-put16, At-put16_step, Extension, server_name, other, HelloText, put16, sni_data,
  put_extensions, extensions_size, OtherKinds, WellFormed, length-suites, length-put_extensions,
  put_extension_block, put_session, put_suites, put_compression, suites, put_body,
}
use edged.Tls.Hello.Receiver.{ClientHello, value}
use edged.Tls.Hello.Extensions.{
  read_suites, store, keep_name, scan_names, parse_sni_extension, read_extension, parse_extensions,
}
use edged.Tls.Hello.{
  read_version, read_session, read_cipher_suites, read_compression, parse_client_hello_body,
  unmarshal_extensions,
}

-- One more host name, if there is room.
abbrev pub add_name : Bytes → ClientHello → ClientHello
add_name name out =
    if ltb out.sni_count (length out.sni_host_names)
    then record out {
      sni_host_names = set out.sni_host_names out.sni_count name;
      sni_count = out.sni_count + 1;
    }
    else out

abbrev pub add_names : List Extension → ClientHello → ClientHello
add_names [] out = out
add_names (server_name name ∷ es) out = add_names es (add_name name out)
add_names (other kind body ∷ es) out = add_names es out

parse_sni_extension-sni_data :
    (name : Bytes) (out : ClientHello)
    → parse_sni_extension (sni_data name) out ≡ ok (add_name name out)
unfolding parse_sni_extension scan_names keep_name store
parse_sni_extension-sni_data name out =
    let a = At-start (sni_data name) in
    let a2 = At-put16_step 0 (3 + length name) (0 ∷ put16 (length name) name) a in
    let a3 = At-step 2 (0 ∷ []) (put16 (length name) name) 3 a2 refl in
    let a5 = At-put16_step 3 (length name) name a3 in
    let next : ℕ = 2 + 3 + length name in
    let whole : slice (sni_data name) 5 next ≡ ok name =
      At-slice 5 name [] next (rw append-nil a5) refl in
    rw (At-put16 0 (3 + length name) _ a, At-index 2 0 _ a2, At-put16 3 (length name) _ a3, whole)
      (ground arith)

read_suites-put :
    {b : Bytes} (cs : List ℕ) (pos i : ℕ) (rest : Bytes)
    → At b (pos + i * 2) (suites cs ++ rest)
    → read_suites (length cs) b pos i ≡ ok cs
unfolding read_suites
read_suites-put [] pos i rest a = refl
read_suites-put {b} (c ∷ cs) pos i rest a =
    let next : At b (pos + (i + 1) * 2) (suites cs ++ rest) =
      subst (λ p. At b p (suites cs ++ rest)) (omega arith) (At-put16_step (pos + i * 2) c _ a) in
    rw (At-put16 (pos + i * 2) c _ a, read_suites-put cs pos (i + 1) rest next) refl

module _ {b : Bytes} (out : ClientHello) (rest : Bytes) where
  read_version-put :
      (version : ℕ) (random : Bytes)
      → length random ≡ 32
      → At b 0 (put16 version (random ++ rest))
      → read_version b out ≡ ok (record out { version = version; random = random }, value 34)
  unfolding read_version
  read_version-put version random size a =
      rw
        (
          At-put16 0 version _ a,
          At-slice 2 random rest 34 (At-put16_step 0 version _ a) (omega arith),
        )
        refl

  read_session-put :
      (pos : ℕ) (session : Bytes)
      → At b pos (length session ∷ (session ++ rest))
      → read_session b pos out
        ≡ ok (record out { session_id = session }, value (pos + 1 + length session))
  unfolding read_session
  read_session-put pos session a =
      let inside = At-step pos (length session ∷ []) (session ++ rest) (pos + 1) a refl in
      ground (
        arith,
        At-index pos (length session) _ a,
        At-slice (pos + 1) session rest (pos + 1 + length session) inside refl,
        a.size,
        length-append session rest,
      )

  read_cipher_suites-put :
      (pos : ℕ) (cs : List ℕ)
      → At b pos (put16 (2 * length cs) (suites cs ++ rest))
      → read_cipher_suites b pos out
        ≡ ok (record out { cipher_suites = cs }, value (pos + 2 + 2 * length cs))
  unfolding read_cipher_suites
  read_cipher_suites-put pos cs a =
      let inside = At-put16_step pos (2 * length cs) _ a in
      let half : 2 * length cs / 2 ≡ length cs = omega arith in
      let read : read_suites (2 * length cs / 2) b (pos + 2) 0 ≡ ok cs = rw half (
        read_suites-put cs (pos + 2) 0 rest
          (subst (λ p. At b p (suites cs ++ rest)) (omega arith) inside)) in
      ground (
        arith,
        At-put16 pos (2 * length cs) _ a,
        read,
        a.size,
        length-append (suites cs) rest,
        length-suites cs,
      )

  read_compression-put :
      (pos : ℕ) (methods : Bytes)
      → At b pos (length methods ∷ (methods ++ rest))
      → read_compression b pos out
        ≡ ok (record out { compression_methods = methods }, value (pos + 1 + length methods))
  unfolding read_compression
  read_compression-put pos methods a =
      let inside = At-step pos (length methods ∷ []) (methods ++ rest) (pos + 1) a refl in
      ground (
        arith,
        At-index pos (length methods) _ a,
        At-slice (pos + 1) methods rest (pos + 1 + length methods) inside refl,
        a.size,
        length-append methods rest,
      )

  parse_extensions-put :
      (ext_end : ℕ) (es : List Extension) (f pos : ℕ) (o : ClientHello)
      → At b pos (put_extensions es rest)
      → ext_end ≡ pos + extensions_size es
      → OtherKinds es
      → length b < f + pos
      → parse_extensions f b pos ext_end o ≡ ok (add_names es o)
  unfolding parse_extensions read_extension
  parse_extensions-put ext_end es zero pos o a e k enough = absurd (omega (arith, a.size))
  parse_extensions-put ext_end [] (suc f) pos o a e k enough = ground arith
  parse_extensions-put ext_end (other kind body ∷ es) (suc f) pos o a e k enough =
      let a2 = At-put16_step pos kind _ a in
      let a4 = At-put16_step (pos + 2) (length body) _ a2 in
      let next : ℕ = pos + 4 + length body in
      let behind = At-step (pos + 2 + 2) body (put_extensions es rest) next a4 (omega arith) in
      rw (At-put16 pos kind _ a, At-put16 (pos + 2) (length body) _ a2)
        (ground (arith, behind.size, parse_extensions-put ext_end es f next o behind))
  parse_extensions-put ext_end (server_name name ∷ es) (suc f) pos o a e k enough =
      let a2 = At-put16_step pos 0 _ a in
      let a4 : At b (pos + 4) (sni_data name ++ put_extensions es rest) =
        subst (λ p. At b p (sni_data name ++ put_extensions es rest)) (omega arith)
          (At-put16_step (pos + 2) (5 + length name) _ a2) in
      let next : ℕ = pos + 4 + (5 + length name) in
      let behind =
        At-step (pos + 4) (sni_data name) (put_extensions es rest) next a4 (omega arith) in
      let whole =
        At-slice (pos + 4) (sni_data name) (put_extensions es rest) next a4 (omega arith) in
      rw (At-put16 pos 0 _ a, At-put16 (pos + 2) (5 + length name) _ a2, whole)
        (ground (
          arith,
          behind.size,
          parse_sni_extension-sni_data name o,
          parse_extensions-put ext_end es f next (add_name name o) behind,
        ))

  pub unmarshal_extensions-put :
      (h : HelloText) (pos : ℕ)
      → WellFormed h
      → At b pos (put_extension_block h rest)
      → unmarshal_extensions b pos out
        ≡ ok (add_names h.extensions (record out { sni_count = 0 }), value tt)
  unfolding unmarshal_extensions
  unmarshal_extensions-put h pos w a =
      let inside = At-put16_step pos (extensions_size h.extensions) _ a in
      ground (
        arith,
        At-put16 pos (extensions_size h.extensions) _ a,
        a.size,
        length-put_extensions h.extensions rest,
        parse_extensions-put (pos + 2 + extensions_size h.extensions) h.extensions (suc (length b))
            (pos + 2) (record out { sni_count = 0 }) inside refl w.kinds,
      )

-- The fields that stand in front of the extensions.
abbrev pub with_fields : HelloText → ClientHello → ClientHello
with_fields h out = record out {
  version = h.version;
  random = h.random;
  session_id = h.session_id;
  cipher_suites = h.cipher_suites;
  compression_methods = h.compression_methods;
}

module _ (h : HelloText) (w : WellFormed h) (rest : Bytes) (out : ClientHello) where
  abbrev pub block_at : ℕ
  block_at =
      34
      + 1
      + length h.session_id
      + 2
      + 2 * length h.cipher_suites
      + 1
      + length h.compression_methods

  pub parse_client_hello_body-put :
      (parse_client_hello_body (put_body h rest) out ≡ ok (with_fields h out, value block_at))
      × At (put_body h rest) block_at (put_extension_block h rest)
  unfolding parse_client_hello_body
  parse_client_hello_body-put =
      let b = put_body h rest in
      let start = At-start b in
      let random = At-put16_step 0 h.version _ start in
      let session = At-step 2 h.random (put_session h rest) 34 random (omega arith) in
      let sid = At-step 34 (length h.session_id ∷ []) _ 35 session refl in
      let pos : ℕ = 34 + 1 + length h.session_id in
      let suite_block = At-step 35 h.session_id (put_suites h rest) pos sid refl in
      let suite_list = At-put16_step pos (2 * length h.cipher_suites) _ suite_block in
      let pos' : ℕ = pos + 2 + 2 * length h.cipher_suites in
      let compression =
        At-step (pos + 2) (suites h.cipher_suites) (put_compression h rest) pos' suite_list
          (omega (arith, length-suites h.cipher_suites)) in
      let methods =
        At-step pos' (length h.compression_methods ∷ []) _ (pos' + 1) compression refl in
      let block =
        At-step (pos' + 1) h.compression_methods (put_extension_block h rest) block_at methods
          refl in
      let o1 = record out { version = h.version; random = h.random } in
      let o2 = record o1 { session_id = h.session_id } in
      let o3 = record o2 { cipher_suites = h.cipher_suites } in
      (
        ground (
          arith,
          block.size,
          read_version-put out (put_session h rest) h.version h.random w.random_size start,
          read_session-put o1 (put_suites h rest) 34 h.session_id session,
          read_cipher_suites-put o2 (put_compression h rest) pos h.cipher_suites suite_block,
          read_compression-put o3 (put_extension_block h rest) pos' h.compression_methods
              compression,
        ),
        block,
      )
