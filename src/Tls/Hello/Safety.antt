-- ===== src/Tls/Hello/Safety.antt =====
-- `Unmarshal` never panics, on any buffer, and keeps the table of host names within its bounds.
use edged.Base.{
  ℕ, zero, suc, ◌+◌, ◌*◌, ◌/◌, ◌≤◌, ◌<◌, ◌≡◌, refl, inl, inr, Bool-cases, ltb, ◌∙◌, arith, length,
  length-drop, length-take_le, length-set, drop, get_or, Bytes, index, uint16_at, slice_from, slice,
  Run, ok, panic, no_fuel, Returns, Ensures, Ensures-bind,
}
use edged.Tls.Hello.Receiver.{ClientHello, Checked, value, fail, Parser, ◌>>=◌}
use edged.Tls.Hello.Extensions.{
  read_suites, store, keep_name, scan_names, parse_sni_extension, read_extension, parse_extensions,
}
use edged.Tls.Hello.{
  check_headers, read_version, read_session, read_cipher_suites, read_compression,
  parse_client_hello_body, unmarshal_extensions, unmarshal_hello, unmarshal_handshake, unmarshal,
}

-- The array has its four slots, and the count does not pass them.
pub record IsValid (out : ClientHello) : Type 0 where
  pub slots : length out.sni_host_names ≡ 4
  pub counted : out.sni_count ≤ 4

keep_name-IsValid :
    (name_type : ℕ) (buf : Bytes) (from to : ℕ) {out : ClientHello}
    → IsValid out
    → from ≤ to
    → to ≤ length buf
    → out.sni_count < 4
    → Ensures IsValid (keep_name name_type buf from to out)
unfolding keep_name store slice
keep_name-IsValid name_type buf from to {out} v le fits room =
    grind (arith, length-set out.sni_host_names out.sni_count)

scan_names-IsValid :
    (f : ℕ) (buf : Bytes) (sni_end sni_pos : ℕ) {out : ClientHello}
    → IsValid out
    → length buf < f + sni_pos
    → sni_pos ≤ length buf
    → Ensures IsValid (scan_names f buf sni_end sni_pos out)
unfolding scan_names index uint16_at
scan_names-IsValid zero buf sni_end sni_pos v enough reached = absurd (omega arith)
scan_names-IsValid (suc f) buf sni_end sni_pos {out} v enough reached =
    let kind = get_or buf sni_pos 0 in
    let next = sni_pos + 3 + (get_or buf (sni_pos + 1) 0 * 256 + get_or buf (sni_pos + 1 + 1) 0) in
    let onward =
      λ (fits : next ≤ sni_end) (inside : sni_end ≤ length buf) (room : out.sni_count < 4).
        Ensures-bind IsValid IsValid (keep_name kind buf (sni_pos + 3) next out)
          (scan_names f buf sni_end next)
          (keep_name-IsValid kind buf (sni_pos + 3) next v (omega arith) (omega arith) room)
          (λ out' v'. scan_names-IsValid f buf sni_end next v' (omega arith) (omega arith)) in
    grind (arith, onward)

parse_sni_extension-IsValid :
    (buf : Bytes) {out : ClientHello} → IsValid out → Ensures IsValid (parse_sni_extension buf out)
unfolding parse_sni_extension uint16_at
parse_sni_extension-IsValid buf v = grind (arith, scan_names-IsValid (suc (length buf)) buf)

read_extension-IsValid :
    (ext_type ext_data_len : ℕ) (hello : Bytes) (pos : ℕ) {out : ClientHello}
    → IsValid out
    → pos + ext_data_len ≤ length hello
    → Ensures IsValid (read_extension ext_type ext_data_len hello pos out)
unfolding read_extension slice
read_extension-IsValid ext_type ext_data_len hello pos v fits =
    grind (arith, parse_sni_extension-IsValid)

read_suites-Returns :
    (n : ℕ) (hello : Bytes) (pos i : ℕ)
    → pos + (i + n) * 2 ≤ length hello
    → Returns (read_suites n hello pos i)
unfolding read_suites uint16_at
read_suites-Returns zero hello pos i h = tt
read_suites-Returns (suc n) hello pos i h = ground (arith, read_suites-Returns n hello pos (i + 1))

parse_extensions-IsValid :
    (f : ℕ) (hello : Bytes) (pos ext_end : ℕ) {out : ClientHello}
    → IsValid out
    → length hello < f + pos
    → pos ≤ length hello
    → ext_end ≤ length hello
    → Ensures IsValid (parse_extensions f hello pos ext_end out)
unfolding parse_extensions uint16_at
parse_extensions-IsValid zero hello pos ext_end v enough reached inside = absurd (omega arith)
parse_extensions-IsValid (suc f) hello pos ext_end {out} v enough reached inside =
    let kind = get_or hello pos 0 * 256 + get_or hello (pos + 1) 0 in
    let size = get_or hello (pos + 2) 0 * 256 + get_or hello (pos + 2 + 1) 0 in
    let next = pos + 4 + size in
    let onward = λ (fits : next ≤ ext_end).
      Ensures-bind IsValid IsValid (read_extension kind size hello (pos + 4) out)
        (parse_extensions f hello next ext_end)
        (read_extension-IsValid kind size hello (pos + 4) v (omega arith))
        (λ out' v'.
          parse_extensions-IsValid f hello next ext_end v' (omega arith) (omega arith) inside) in
    grind (arith, onward)

-- The parser returns, and leaves the receiver's names alone.
abbrev SameNames : ClientHello → ClientHello → Type 0
SameNames out out' = (out'.sni_host_names ≡ out.sni_host_names) × (out'.sni_count ≡ out.sni_count)

abbrev Keeps : {A : Type 0} → Parser A → Type 0
Keeps m = (out : ClientHello) → Ensures (λ (out', _). SameNames out out') (m out)

bind-Keeps :
    {A B : Type 0} (m : Parser A) (f : A → Parser B)
    → Keeps m
    → ((a : A) → Keeps (f a))
    → Keeps (m >>= f)
bind-Keeps {A} {B} m f first later out = go (m out) (first out)
  where
    go :
        (r : Run (ClientHello × Checked A))
        → Ensures (λ (out', _). SameNames out out') r
        → Ensures (λ (out', _). SameNames out out') (((λ _. r) >>= f) out)
    go (ok (o, value a)) h = joined (f a o) (later a o)
      where
        joined :
            (r : Run (ClientHello × Checked B))
            → Ensures (λ (out', _). SameNames o out') r
            → Ensures (λ (out', _). SameNames out out') r
        joined (ok (o', _)) k = (k.0 ∙ h.0, k.1 ∙ h.1)
        joined panic k = k
        joined no_fuel k = k
    go (ok (o, fail e)) h = h
    go panic h = h
    go no_fuel h = h

read_version-Keeps : (hello : Bytes) → 34 ≤ length hello → Keeps (read_version hello)
unfolding read_version uint16_at slice
read_version-Keeps hello long out = ground arith

read_session-Keeps : (hello : Bytes) (pos : ℕ) → Keeps (read_session hello pos)
unfolding read_session index slice
read_session-Keeps hello pos out = ground arith

read_cipher_suites-Keeps : (hello : Bytes) (pos : ℕ) → Keeps (read_cipher_suites hello pos)
unfolding read_cipher_suites uint16_at
read_cipher_suites-Keeps hello pos out =
    let cipher_len = get_or hello pos 0 * 256 + get_or hello (pos + 1) 0 in
    ground (arith, read_suites-Returns (cipher_len / 2) hello (pos + 2) 0)

read_compression-Keeps : (hello : Bytes) (pos : ℕ) → Keeps (read_compression hello pos)
unfolding read_compression index slice
read_compression-Keeps hello pos out = ground arith

parse_client_hello_body-Keeps : (hello : Bytes) → Keeps (parse_client_hello_body hello)
unfolding parse_client_hello_body
parse_client_hello_body-Keeps hello out = elim (Bool-cases (ltb (length hello) 34)) [
  | inl short ↦ rw short (refl, refl)
  | inr long ↦ rw long (
      bind-Keeps (read_version hello) _ (read_version-Keeps hello (ground arith))
        (λ pos. bind-Keeps (read_session hello pos) _ (read_session-Keeps hello pos) (λ pos'.
          bind-Keeps (read_cipher_suites hello pos') _ (read_cipher_suites-Keeps hello pos')
            (λ pos''. read_compression-Keeps hello pos'')))
        out)
]

unmarshal_extensions-IsValid :
    (hello : Bytes) (pos : ℕ) {out : ClientHello}
    → IsValid out
    → Ensures (λ (out', _). IsValid out') (unmarshal_extensions hello pos out)
unfolding unmarshal_extensions uint16_at
unmarshal_extensions-IsValid hello pos {out} v =
    let ext_len = get_or hello pos 0 * 256 + get_or hello (pos + 1) 0 in
    let cleared : IsValid (record out { sni_count = 0 }) = record {
      slots = v.slots;
      counted = omega arith;
    } in
    ground (
      arith,
      parse_extensions-IsValid (suc (length hello)) hello (pos + 2) (pos + 2 + ext_len) cleared,
    )

unmarshal_hello-IsValid :
    (hello : Bytes) {out : ClientHello}
    → IsValid out
    → Ensures (λ (out', _). IsValid out') (unmarshal_hello hello out)
unfolding unmarshal_hello
unmarshal_hello-IsValid hello {out} v =
    go (parse_client_hello_body hello out) (parse_client_hello_body-Keeps hello out)
  where
    go :
        (r : Run (ClientHello × Checked ℕ))
        → Ensures (λ (out', _). SameNames out out') r
        → Ensures (λ (out', _). IsValid out') (((λ _. r) >>= unmarshal_extensions hello) out)
    go (ok (o, value pos)) h = unmarshal_extensions-IsValid hello pos (ground arith)
    go (ok (o, fail e)) h = ground arith
    go panic h = h
    go no_fuel h = h

-- On every buffer, and a receiver with four slots for host names and a count of at most four,
-- `Unmarshal` returns, with or without an error: it does not panic, its loops end, and the receiver
-- keeps its four slots and a count of at most four.
pub unmarshal-IsValid :
    (buf : Bytes) {out : ClientHello}
    → IsValid out
    → Ensures (λ (out', _). IsValid out') (unmarshal buf out)
unfolding unmarshal unmarshal_handshake check_headers index uint16_at slice slice_from
unmarshal-IsValid buf {out} v = ground (
  arith,
  length-drop 5 buf,
  length-drop 4 (drop 5 buf),
  length-drop 3 buf,
  length-take_le 2 (drop 3 buf),
  unmarshal_hello-IsValid (drop 4 (drop 5 buf)) v,
)
