-- ===== src/Tls/Samples.antt =====
-- Client hellos for the tests.
use edged.Base.{refl, [], ◌∷◌, Bytes, codes, arith}
use edged.Tls.Wire.{server_name, other, HelloText, WellFormed}

abbrev pub site : Bytes
site = codes "example.org"

abbrev pub site_hello : HelloText
site_hello = record {
  version = 771;
  random = codes "0123456789abcdef0123456789abcdef";
  session_id = 7 ∷ 9 ∷ [];
  cipher_suites = 4865 ∷ 4866 ∷ [];
  compression_methods = 0 ∷ [];
  extensions =
      other 23 [] ∷ other 43 (2 ∷ 3 ∷ 4 ∷ []) ∷ server_name site ∷ other 10 (0 ∷ 29 ∷ []) ∷ [];
}

pub site_hello-WellFormed : WellFormed site_hello
site_hello-WellFormed = record {
  random_size = refl;
  session_fits = omega arith;
  suites_fit = omega arith;
  compression_fits = omega arith;
  extensions_fit = omega arith;
  record_fits = omega arith;
  kinds = (omega arith, (omega arith, (omega arith, tt)));
}

-- A record of 43 bytes whose ClientHello stops behind the random bytes.
abbrev pub cut_hello : Bytes
cut_hello = 22 ∷ 3 ∷ 1 ∷ 0 ∷ 38 ∷ 1 ∷ 0 ∷ 0 ∷ 34 ∷ 3 ∷ 3 ∷ codes "0123456789abcdef0123456789abcdef"
