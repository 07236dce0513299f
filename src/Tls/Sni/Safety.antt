-- ===== src/Tls/Sni/Safety.antt =====
-- Where `ExtractSNI` panics: the only unchecked read is that of the session id's length.
use edged.Base.{
  ℕ, zero, suc, ◌+◌, ◌≤◌, ◌<◌, true, ◌≡◌, ◌≢◌, ◌↔◌, Option, arith, length, Bytes, length-drop,
  length-take_le, drop, Run, ok, panic, no_fuel, Returns, index, uint16_at, slice, slice_from, Bool,
  ◌>>=◌, none, some,
}
use native.Mathlib.Decide.{ℕ_discrete}
use edged.Tls.Sni.{
  is_tls_handshake, skip_client_hello_headers, parse_sni_extension, scan_extensions,
  extract_sni_from_extensions, extract_sni,
}

parse_sni_extension-Returns : (d : Bytes) → Returns (parse_sni_extension d)
unfolding parse_sni_extension index uint16_at slice
parse_sni_extension-Returns d = ground (arith, length-take_le 2 (drop 3 d), length-drop 3 d)

-- Each round moves at least four bytes on, so `f` rounds are enough for what is left.
scan_extensions-Returns :
    (f : ℕ) (h : Bytes) (end pos : ℕ)
    → length h < f + pos
    → pos ≤ length h
    → end ≤ length h
    → Returns (scan_extensions f h end pos)
unfolding scan_extensions uint16_at slice
scan_extensions-Returns zero h end pos enough reached fits = ground arith
scan_extensions-Returns (suc f) h end pos enough reached fits =
    grind (arith, scan_extensions-Returns f h end, parse_sni_extension-Returns)

extract_sni_from_extensions-Returns :
    (h : Bytes) (pos : ℕ) → Returns (extract_sni_from_extensions h pos)
unfolding extract_sni_from_extensions uint16_at
extract_sni_from_extensions-Returns h pos =
    grind (arith, scan_extensions-Returns (suc (length h)) h)

is_tls_handshake-Returns : (d : Bytes) → Returns (is_tls_handshake d)
unfolding is_tls_handshake index
is_tls_handshake-Returns d = ground arith

-- The headers are read safely unless the handshake ends right behind the random bytes.
skip-Returns : (h : Bytes) → length h ≢ 38 → Returns (skip_client_hello_headers h)
unfolding skip_client_hello_headers index uint16_at
skip-Returns h ne = ground arith

skip-panic : (h : Bytes) → length h ≡ 38 → skip_client_hello_headers h ≡ panic
unfolding skip_client_hello_headers index uint16_at
skip-panic h e = ground arith

is_tls_handshake-length : (d : Bytes) → is_tls_handshake d ≡ ok true → 9 ≤ length d
unfolding is_tls_handshake index
is_tls_handshake-length d h = ground arith

Run_Bool-discrete : Discrete (Run Bool)
Run_Bool-discrete = hlevel

dec_both : (d : Bytes) → Dec ((is_tls_handshake d ≡ ok true) × (length d ≡ 43))
dec_both d = elim (Run_Bool-discrete (is_tls_handshake d) (ok true)) [
  | no n ↦ no (λ h. n h.0)
  | yes p ↦ elim (ℕ_discrete (length d) 43) [ no n ↦ no (λ h. n h.1) | yes q ↦ yes (p, q) ]
]

find_from-Returns :
    (h : Bytes) (r : Run (Option ℕ))
    → Returns r
    → Returns (
        r >>= λ found. elim found [ none ↦ ok none | some pos ↦ extract_sni_from_extensions h pos ])
find_from-Returns h (ok none) t = tt
find_from-Returns h (ok (some pos)) t = extract_sni_from_extensions-Returns h pos
find_from-Returns h panic t = t
find_from-Returns h no_fuel t = t

extract_sni-Returns :
    (d : Bytes) → ¬ ((is_tls_handshake d ≡ ok true) × (length d ≡ 43)) → Returns (extract_sni d)
unfolding extract_sni slice_from
extract_sni-Returns d n = ground (
  arith,
  is_tls_handshake-Returns d,
  is_tls_handshake-length d,
  length-drop 5 d,
  find_from-Returns (drop 5 d) (skip_client_hello_headers (drop 5 d)),
  skip-Returns (drop 5 d),
)

extract_sni-panic :
    (d : Bytes) → is_tls_handshake d ≡ ok true → length d ≡ 43 → extract_sni d ≡ panic
unfolding extract_sni slice_from
extract_sni-panic d h e = ground (arith, skip-panic (drop 5 d), length-drop 5 d)

-- `ExtractSNI` always ends, and it panics exactly on the buffers of 43 bytes that pass its
-- handshake test.
pub extract_sni-panic_iff :
    (d : Bytes)
    → ((extract_sni d ≡ panic) ↔ ((is_tls_handshake d ≡ ok true) × (length d ≡ 43)))
      × (extract_sni d ≢ no_fuel)
extract_sni-panic_iff d = elim (dec_both d) [
  | yes h ↦ let p = extract_sni-panic d h.0 h.1 in ((λ _. h, λ _. p), cc p)
  | no n ↦
      let r = extract_sni-Returns d n in
      ((λ e. absurd (rw e at r), λ h. absurd (n h)), λ e. rw e at r)
]
