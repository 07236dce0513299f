-- ===== src/Tls/Tests.antt =====
-- The readers of crypto/tls on concrete bytes.
use edged.Base.{
  ◌≡◌, ◌≢◌, refl, ◌↔◌, [], ◌∷◌, some, arith, length, ok, panic, no_fuel, Ensures, get_elem?, true,
}
use edged.Tls.Wire.{put_record}
use edged.Tls.Samples.{site, site_hello, site_hello-WellFormed, cut_hello}
use edged.Tls.Sni.{extract_sni, is_tls_handshake}
use edged.Tls.Sni.Safety.{extract_sni-panic_iff}
use edged.Tls.Sni.RoundTrip.{extract_sni-put_record}
use edged.Tls.Hello.{ClientHello, unmarshal, value}
use edged.Tls.Hello.Safety.{IsValid, unmarshal-IsValid}
use edged.Tls.Hello.ReadBack.{read_back, unmarshal-put_record, extract_sni-unmarshal}

abbrev blank : ClientHello
blank = record {
  version = 0;
  random = [];
  session_id = [];
  cipher_suites = [];
  compression_methods = [];
  sni_host_names = [] ∷ [] ∷ [] ∷ [] ∷ [];
  sni_count = 0;
}

extract_sni-panic_iff_example :
    ((extract_sni cut_hello ≡ panic)
      ↔ ((is_tls_handshake cut_hello ≡ ok true) × (length cut_hello ≡ 43)))
    × (extract_sni cut_hello ≢ no_fuel)
extract_sni-panic_iff_example = extract_sni-panic_iff cut_hello

extract_sni-put_record_example : extract_sni (put_record site_hello (1 ∷ 2 ∷ [])) ≡ ok (some site)
extract_sni-put_record_example =
    extract_sni-put_record site_hello (1 ∷ 2 ∷ []) site_hello-WellFormed

blank-IsValid : IsValid blank
blank-IsValid = record { slots = refl; counted = omega arith }

unmarshal-IsValid_example : Ensures (λ (out, _). IsValid out) (unmarshal cut_hello blank)
unmarshal-IsValid_example = unmarshal-IsValid cut_hello {out = blank} blank-IsValid

unmarshal-put_record_example :
    unmarshal (put_record site_hello []) blank ≡ ok (read_back site_hello blank, value tt)
unmarshal-put_record_example = unmarshal-put_record site_hello [] blank site_hello-WellFormed

extract_sni-unmarshal_example :
    (extract_sni (put_record site_hello []) ≡ ok (some site))
    × ((read : ClientHello) × (unmarshal (put_record site_hello []) blank ≡ ok (read, value tt))
        × (get_elem? read.sni_host_names 0 ≡ some site))
extract_sni-unmarshal_example =
    extract_sni-unmarshal site_hello [] site blank site_hello-WellFormed refl refl
