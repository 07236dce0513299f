-- ===== src/Tls/Hello/Extensions.antt =====
-- crypto/tls/hello.go: the loops, which return no error and may panic.
use edged.Base.{
  ℕ, zero, suc, ◌+◌, ◌*◌, ◌&&◌, List, [], ◌∷◌, ltb, leb, ◌==◌, if◌then◌else◌, length, set, Bytes,
  index, uint16_at, slice, Run, ok, panic, no_fuel, ◌>>=◌,
}
use edged.Tls.Hello.Receiver.{ClientHello}

-- The loop over the cipher suites, from round `i` on, with `n` rounds left.
unfoldable pub read_suites : ℕ → Bytes → ℕ → ℕ → Run (List ℕ)
read_suites zero hello pos i = ok []
read_suites (suc n) hello pos i = do
  cs ← uint16_at hello (pos + i * 2)
  rest ← read_suites n hello pos (i + 1)
  ok (cs ∷ rest)

-- `out.SNIHostNames[i] = name` on the array
unfoldable pub store : List Bytes → ℕ → Bytes → Run (List Bytes)
store names i name = if ltb i (length names) then ok (set names i name) else panic

-- The `if nameType == 0` of the loop below.
unfoldable pub keep_name : ℕ → Bytes → ℕ → ℕ → ClientHello → Run ClientHello
keep_name name_type buf from to out =
    if name_type == 0
    then (do
      name ← slice buf from to
      names ← store out.sni_host_names out.sni_count name
      ok (record out { sni_host_names = names; sni_count = out.sni_count + 1 }))
    else ok out

-- The loop of `parseSNIExtension`, on fuel.
unfoldable pub scan_names : ℕ → Bytes → ℕ → ℕ → ClientHello → Run ClientHello
scan_names zero buf sni_end sni_pos out = no_fuel
scan_names (suc f) buf sni_end sni_pos out =
    if leb (sni_pos + 3) sni_end
      && (ltb out.sni_count (length out.sni_host_names) && leb sni_end (length buf))
    then (do
      name_type ← index buf sni_pos
      name_len ← uint16_at buf (sni_pos + 1)
      let next = sni_pos + 3 + name_len
      if ltb sni_end next then ok out else (do
        out' ← keep_name name_type buf (sni_pos + 3) next out
        scan_names f buf sni_end next out'))
    else ok out

unfoldable pub parse_sni_extension : Bytes → ClientHello → Run ClientHello
parse_sni_extension buf out =
    if ltb (length buf) 2
    then ok out
    else (do sni_len ← uint16_at buf 0; scan_names (suc (length buf)) buf (2 + sni_len) 2 out)

-- The `if extType == 0x00` of the loop below.
unfoldable pub read_extension : ℕ → ℕ → Bytes → ℕ → ClientHello → Run ClientHello
read_extension ext_type ext_data_len hello pos out =
    if ext_type == 0x00 && leb 2 ext_data_len
    then (do part ← slice hello pos (pos + ext_data_len); parse_sni_extension part out)
    else ok out

-- `parseExtensions`, on fuel.
unfoldable pub parse_extensions : ℕ → Bytes → ℕ → ℕ → ClientHello → Run ClientHello
parse_extensions zero hello pos ext_end out = no_fuel
parse_extensions (suc f) hello pos ext_end out =
    if leb (pos + 4) ext_end
    then (do
      ext_type ← uint16_at hello pos
      ext_data_len ← uint16_at hello (pos + 2)
      let next = pos + 4 + ext_data_len
      if ltb ext_end next then ok out else (do
        out' ← read_extension ext_type ext_data_len hello (pos + 4) out
        parse_extensions f hello next ext_end out'))
    else ok out
