-- ===== src/Tls/Sni.antt =====
-- crypto/tls/extract_sni.go: `ExtractSNI`, which the passthrough listener runs on the first bytes
-- of every connection. A `nil` slice is `none`.
pub mod Safety
pub mod RoundTrip
use edged.Base.{
  ℕ, zero, suc, ◌+◌, ◌≤◌, Bool, true, false, not, Option, none, some, ltb, leb, ◌==◌, if◌then◌else◌,
  length, Bytes, index, uint16_at, slice_from, slice, Run, ok, no_fuel, ◌>>=◌,
}

abbrev pub tls_handshake_flag : ℕ
tls_handshake_flag = 0x16

abbrev pub tls_handshake_begin : ℕ
tls_handshake_begin = 0x16

-- HandshakeType(8 bit) + Length(24 bit) + Version(16 bit) + Random (256 bit)
abbrev pub tls_hello_size : ℕ
tls_hello_size = 1 + 3 + 2 + 32

abbrev pub sni_min_header_size : ℕ
sni_min_header_size = 5

unfoldable pub is_tls_handshake : Bytes → Run Bool
is_tls_handshake buf = if ltb (length buf) 9 then ok false else do
  flag ← index buf 0
  if not (flag == tls_handshake_flag)
      then ok false
      else do begin ← index buf 5; ok (not (begin == tls_handshake_begin))

-- The pair `(pos, ok)`: `none` is `(0, false)`.
unfoldable pub skip_client_hello_headers : Bytes → Run (Option ℕ)
skip_client_hello_headers handshake = if ltb (length handshake) tls_hello_size then ok none else do
  sid_len ← index handshake tls_hello_size
  let pos = tls_hello_size + (1 + sid_len)
  if ltb (length handshake) (pos + 2) then ok none else do
    cs_len ← uint16_at handshake pos
    let pos' = pos + (2 + cs_len)
    if ltb (length handshake) (pos' + 1) then ok none else do
      comp_methods_len ← index handshake pos'
      let pos'' = pos' + (1 + comp_methods_len)
      if ltb (length handshake) (pos'' + 2) then ok none else ok (some pos'')

unfoldable pub parse_sni_extension : Bytes → Run (Option Bytes)
parse_sni_extension sni_data = if ltb (length sni_data) 5 then ok none else do
  name_type ← index sni_data 2
  if not (name_type == 0) then ok none else do
    field ← slice sni_data 3 5
    n ← uint16_at field 0
    let name_len = n + sni_min_header_size
    if ltb (length sni_data) name_len
        then ok none
        else do name ← slice sni_data 5 name_len; ok (some name)

-- The loop of `extractSNIFromExtensions`, on fuel.
unfoldable pub scan_extensions : ℕ → Bytes → ℕ → ℕ → Run (Option Bytes)
scan_extensions zero handshake end pos = no_fuel
scan_extensions (suc f) handshake end pos =
    if leb (pos + 4) end
    then (do
      ext_type ← uint16_at handshake pos
      ext_data_len ← uint16_at handshake (pos + 2)
      let pos' = pos + 4
      if ltb (length handshake) (pos' + ext_data_len)
          then ok none
          else if ext_type == 0x00
          then (do
            sni_data ← slice handshake pos' (pos' + ext_data_len)
            parse_sni_extension sni_data)
          else scan_extensions f handshake end (pos' + ext_data_len))
    else ok none

unfoldable pub extract_sni_from_extensions : Bytes → ℕ → Run (Option Bytes)
extract_sni_from_extensions handshake pos = if ltb (length handshake) (pos + 2) then ok none else do
  ext_len ← uint16_at handshake pos
  let pos' = pos + 2
  if ltb (length handshake) pos'
      then ok none
      else let end = pos' + ext_len in
        if ltb (length handshake) end
        then ok none
        else scan_extensions (suc (length handshake)) handshake end pos'

unfoldable pub extract_sni : Bytes → Run (Option Bytes)
extract_sni buf = do
  is_handshake ← is_tls_handshake buf
  if not is_handshake then ok none else do
    handshake ← slice_from buf 5
    found ← skip_client_hello_headers handshake
    elim found [ none ↦ ok none | some pos ↦ extract_sni_from_extensions handshake pos ]
