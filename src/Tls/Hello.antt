-- ===== src/Tls/Hello.antt =====
-- crypto/tls/hello.go: `ClientHello.Unmarshal`. The receiver is the state, which a call changes
-- also where it returns an error.
mod Receiver
mod Extensions
pub mod Safety
pub mod RoundTrip
pub mod ReadBack
unfoldable pub use Receiver.*
unfoldable pub use Extensions.{read_suites, parse_extensions}
use edged.Base.{
  ℕ, zero, suc, ◌+◌, ◌-◌, ◌*◌, ◌/◌, ◌≤◌, Bool, true, false, not, ◌&&◌, Option, none, some, List, [],
  ◌∷◌, ltb, leb, ◌==◌, if◌then◌else◌, length, set, Bytes, index, uint16_at, slice_from, slice, Run,
  ok, panic, no_fuel,
}

abbrev pub tls_handshake_type_client_hello : ℕ
tls_handshake_type_client_hello = 0x01

abbrev pub tls_record_type_handshake : ℕ
tls_record_type_handshake = 0x16

abbrev pub tls_record_header_len : ℕ
tls_record_header_len = 5

abbrev pub tls_handshake_header_len : ℕ
tls_handshake_header_len = 4

unfoldable pub check_record_header : Bytes → Parser (Unit {0})
check_record_header buf =
    if ltb (length buf) (tls_record_header_len + tls_handshake_header_len)
    then throw data_too_short
    else (do
      kind ← lift (index buf 0)
      if not (kind == tls_record_type_handshake) then throw not_a_handshake else pure tt)

unfoldable pub check_handshake_header : Bytes → Parser (Unit {0})
check_handshake_header buf =
    if ltb (length buf) (tls_record_header_len + tls_handshake_header_len)
    then throw data_too_short_for_handshake
    else pure tt

unfoldable pub check_headers : Bytes → Parser (Unit {0})
unfolding check_record_header check_handshake_header
check_headers buf = do check_record_header buf; check_handshake_header buf

unfoldable pub get_session_id_len : Bytes → ℕ → Parser ℕ
get_session_id_len hello pos = if leb (length hello) pos then throw invalid_session_id else (do
  session_id_len ← lift (index hello pos)
  if ltb (length hello) (pos + 1 + session_id_len)
      then throw invalid_session_id_length
      else pure session_id_len)

unfoldable pub get_cipher_len : Bytes → ℕ → Parser ℕ
get_cipher_len hello pos = if ltb (length hello) (pos + 2) then throw invalid_cipher_suites else (do
  cipher_len ← lift (uint16_at hello pos)
  if ltb (length hello) (pos + 2 + cipher_len)
      then throw cipher_suites_too_long
      else pure cipher_len)

unfoldable pub get_comp_methods_len : Bytes → ℕ → Parser ℕ
get_comp_methods_len hello pos =
    if leb (length hello) pos then throw no_compression_methods else (do
      comp_methods_len ← lift (index hello pos)
      if ltb (length hello) (pos + 1 + comp_methods_len)
          then throw compression_methods_out_of_bounds
          else pure comp_methods_len)

-- The parts of `parseClientHelloBody`: each starts at `pos` and returns the position behind it.
unfoldable pub read_session : Bytes → ℕ → Parser ℕ
unfolding get_session_id_len
read_session hello pos = do
  session_id_len ← get_session_id_len hello pos
  session_id ← lift (slice hello (pos + 1) (pos + 1 + session_id_len))
  modify (λ out. record out { session_id = session_id })
  pure (pos + 1 + session_id_len)

unfoldable pub read_cipher_suites : Bytes → ℕ → Parser ℕ
unfolding get_cipher_len
read_cipher_suites hello pos = do
  cipher_len ← get_cipher_len hello pos
  cipher_suites ← lift (read_suites (cipher_len / 2) hello (pos + 2) 0)
  modify (λ out. record out { cipher_suites = cipher_suites })
  pure (pos + 2 + cipher_len)

unfoldable pub read_compression : Bytes → ℕ → Parser ℕ
unfolding get_comp_methods_len
read_compression hello pos = do
  comp_methods_len ← get_comp_methods_len hello pos
  compression_methods ← lift (slice hello (pos + 1) (pos + 1 + comp_methods_len))
  modify (λ out. record out { compression_methods = compression_methods })
  pure (pos + 1 + comp_methods_len)

unfoldable pub read_version : Bytes → Parser ℕ
read_version hello = do
  version ← lift (uint16_at hello 0)
  modify (λ out. record out { version = version })
  random ← lift (slice hello 2 (2 + 32))
  modify (λ out. record out { random = random })
  pure 34

unfoldable pub parse_client_hello_body : Bytes → Parser ℕ
parse_client_hello_body hello =
    if ltb (length hello) (2 + 32) then throw client_hello_too_short else (do
      pos ← read_version hello
      pos' ← read_session hello pos
      pos'' ← read_cipher_suites hello pos'
      read_compression hello pos'')

-- A call that changes the receiver and returns nothing.
abbrev pub call : (ClientHello → Run ClientHello) → Parser (Unit {0})
call f out = elim (f out) [ ok out' ↦ ok (out', value tt) | panic ↦ panic | no_fuel ↦ no_fuel ]

-- The part of `Unmarshal` behind the body.
unfoldable pub unmarshal_extensions : Bytes → ℕ → Parser (Unit {0})
unmarshal_extensions hello pos =
    if ltb (length hello) (pos + 2) then modify (λ out. record out { sni_count = 0 }) else (do
      ext_len ← lift (uint16_at hello pos)
      let ext_end = pos + 2 + ext_len
      if ltb (length hello) ext_end then throw extensions_truncated else (do
        modify (λ out. record out { sni_count = 0 })
        call (parse_extensions (suc (length hello)) hello (pos + 2) ext_end)))

-- The parts of `Unmarshal` from `hello` on, and from `handshake` on.
unfoldable pub unmarshal_hello : Bytes → Parser (Unit {0})
unmarshal_hello hello = do pos ← parse_client_hello_body hello; unmarshal_extensions hello pos

unfoldable pub unmarshal_handshake : Bytes → Parser (Unit {0})
unmarshal_handshake handshake = do
  kind ← lift (index handshake 0)
  if not (kind == tls_handshake_type_client_hello)
      then throw not_a_client_hello
      else (do hello ← lift (slice_from handshake tls_handshake_header_len); unmarshal_hello hello)

unfoldable pub unmarshal : Bytes → Parser (Unit {0})
unmarshal buf = do
  check_headers buf
  field ← lift (slice buf 3 5)
  record_len ← lift (uint16_at field 0)
  if ltb (length buf - tls_record_header_len) record_len then throw truncated_record else (do
    handshake ← lift (slice_from buf tls_record_header_len)
    unmarshal_handshake handshake)
