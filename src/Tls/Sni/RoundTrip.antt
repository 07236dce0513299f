-- ===== src/Tls/Sni/RoundTrip.antt =====
-- `ExtractSNI` on a written ClientHello returns its first host name.
use edged.Base.{
  ℕ, zero, suc, ◌+◌, ◌*◌, ◌/◌, ◌%◌, ◌<◌, ◌≡◌, refl, List, [], ◌∷◌, ◌++◌, some, true, arith, length,
  Bytes, length-append, append-nil, index, uint16_at, slice, ok, At, At-index, At-step, At-slice,
  At-slice_from, At-start,
}
use mathlib.Core.Path.{subst}
use edged.Tls.Sni.{
  is_tls_handshake, skip_client_hello_headers, parse_sni_extension, scan_extensions,
  extract_sni_from_extensions, extract_sni,
}
use edged.Tls.Wire.{
  At-put16, At-put16_step, Extension, server_name, other, HelloText, put16, sni_data,
  put_extensions, extensions_size, OtherKinds, WellFormed, first_name, length-suites,
  length-put_extensions, put_extension_block, put_handshake, put_record, put_session, put_suites,
  put_compression, suites, body_size, put_body,
}

parse_sni_extension-sni_data : (name : Bytes) → parse_sni_extension (sni_data name) ≡ ok (some name)
unfolding parse_sni_extension
parse_sni_extension-sni_data name =
    let a = At-start (sni_data name) in
    let a2 = At-put16_step 0 (3 + length name) (0 ∷ put16 (length name) name) a in
    let a3 = At-step 2 (0 ∷ []) (put16 (length name) name) 3 a2 refl in
    let a5 = At-put16_step 3 (length name) name a3 in
    let field : slice (sni_data name) 3 5 ≡ ok ((length name / 256) ∷ (length name % 256) ∷ []) =
      At-slice 3 ((length name / 256) ∷ (length name % 256) ∷ []) name 5 a3 refl in
    let size : uint16_at ((length name / 256) ∷ (length name % 256) ∷ []) 0 ≡ ok (length name) =
      At-put16 0 (length name) [] (At-start _) in
    let kind : index (sni_data name) 2 ≡ ok 0 = At-index 2 0 (put16 (length name) name) a2 in
    let whole : slice (sni_data name) 5 (length name + 5) ≡ ok name =
      At-slice 5 name [] (length name + 5) (rw append-nil a5) (omega arith) in
    rw (kind, field, size, whole) (ground arith)

module _ {h : Bytes} (rest : Bytes) {end : ℕ} where
  scan_extensions-put :
      (es : List Extension) (f pos : ℕ)
      → At h pos (put_extensions es rest)
      → end ≡ pos + extensions_size es
      → OtherKinds es
      → length h < f + pos
      → scan_extensions f h end pos ≡ ok (first_name es)
  unfolding scan_extensions
  scan_extensions-put es zero pos a e k enough = absurd (omega (arith, a.size))
  scan_extensions-put [] (suc f) pos a e k enough = ground arith
  scan_extensions-put (other kind body ∷ es) (suc f) pos a e k enough =
      let a2 = At-put16_step pos kind _ a in
      let a4 = At-put16_step (pos + 2) (length body) _ a2 in
      let next =
        At-step (pos + 2 + 2) body (put_extensions es rest) (pos + 4 + length body) a4
          (omega arith) in
      rw (At-put16 pos kind _ a, At-put16 (pos + 2) (length body) _ a2)
        (ground (arith, next.size, scan_extensions-put es f (pos + 4 + length body) next))
  scan_extensions-put (server_name name ∷ es) (suc f) pos a e k enough =
      let a2 = At-put16_step pos 0 _ a in
      let a4 = At-put16_step (pos + 2) (5 + length name) _ a2 in
      let a4' : At h (pos + 4) (sni_data name ++ put_extensions es rest) =
        subst (λ p. At h p (sni_data name ++ put_extensions es rest)) (omega arith) a4 in
      let whole : slice h (pos + 4) (pos + 4 + (5 + length name)) ≡ ok (sni_data name) =
        At-slice (pos + 4) (sni_data name) (put_extensions es rest) _ a4' (omega arith) in
      rw (At-put16 pos 0 _ a, At-put16 (pos + 2) (5 + length name) _ a2, whole)
        (ground (
          arith,
          a.size,
          length-append name (put_extensions es rest),
          parse_sni_extension-sni_data name,
        ))

module _ (h : HelloText) (w : WellFormed h) (rest : Bytes) where
  skip_client_hello_headers-put :
      (pos : ℕ) × (skip_client_hello_headers (put_handshake h rest) ≡ ok (some pos))
      × At (put_handshake h rest) pos (put_extension_block h rest)
  unfolding skip_client_hello_headers
  skip_client_hello_headers-put =
      let b = put_handshake h rest in
      let size_field = (body_size h % 65536 / 256) ∷ (body_size h % 65536 % 256) ∷ [] in
      let body =
        At-step 0 (1 ∷ (body_size h / 65536) ∷ size_field) (put_body h rest) 4 (At-start b) refl in
      let random = At-put16_step 4 h.version _ body in
      let session = At-step 6 h.random (put_session h rest) 38 random (omega arith) in
      let sid = At-step 38 (length h.session_id ∷ []) _ 39 session refl in
      let pos : ℕ = 38 + (1 + length h.session_id) in
      let suite_block = At-step 39 h.session_id (put_suites h rest) pos sid (omega arith) in
      let suite_list = At-put16_step pos (2 * length h.cipher_suites) _ suite_block in
      let pos' : ℕ = pos + (2 + 2 * length h.cipher_suites) in
      let compression =
        At-step (pos + 2) (suites h.cipher_suites) (put_compression h rest) pos' suite_list
          (omega (arith, length-suites h.cipher_suites)) in
      let methods =
        At-step pos' (length h.compression_methods ∷ []) _ (pos' + 1) compression (omega arith) in
      let pos'' : ℕ = pos' + (1 + length h.compression_methods) in
      let block =
        At-step (pos' + 1) h.compression_methods (put_extension_block h rest) pos'' methods
          (omega arith) in
      (
        pos'',
        rw
            (
              At-index 38 (length h.session_id) _ session,
              At-put16 pos (2 * length h.cipher_suites) _ suite_block,
              At-index pos' (length h.compression_methods) _ compression,
            )
            (ground (arith, block.size)),
        block,
      )

  extract_sni_from_extensions-put :
      (b : Bytes) (pos : ℕ)
      → At b pos (put_extension_block h rest)
      → extract_sni_from_extensions b pos ≡ ok (first_name h.extensions)
  unfolding extract_sni_from_extensions
  extract_sni_from_extensions-put b pos a =
      let inside = At-put16_step pos (extensions_size h.extensions) _ a in
      rw (At-put16 pos (extensions_size h.extensions) _ a) (
        ground (
          arith,
          a.size,
          length-put_extensions h.extensions rest,
          scan_extensions-put rest h.extensions (suc (length b)) (pos + 2) inside refl w.kinds,
        ))

-- On the bytes of a well-formed ClientHello, with anything behind them, `ExtractSNI` returns the
-- first host name that the hello has, and `nil` if it has none.
pub extract_sni-put_record :
    (h : HelloText) (rest : Bytes)
    → WellFormed h
    → extract_sni (put_record h rest) ≡ ok (first_name h.extensions)
unfolding extract_sni
extract_sni-put_record h rest w =
    let (pos, skipped, block) = skip_client_hello_headers-put h w rest in
    let whole = put_record h rest in
    let size_field = ((4 + body_size h) / 256) ∷ ((4 + body_size h) % 256) ∷ [] in
    let message =
      At-step 0 (22 ∷ 3 ∷ 1 ∷ size_field) (put_handshake h rest) 5 (At-start whole) refl in
    let accepted : is_tls_handshake whole ≡ ok true =
      unfold is_tls_handshake index in ground arith in
    rw (accepted, At-slice_from 5 _ message, skipped)
      (extract_sni_from_extensions-put h w rest (put_handshake h rest) pos block)
