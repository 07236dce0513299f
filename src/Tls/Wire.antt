-- ===== src/Tls/Wire.antt =====
-- The ClientHello of TLS (RFC 5246, RFC 6066), as a value and as the bytes that stand for it. Each
-- writer puts its bytes in front of what follows them. Nothing here stands in the code: it is the
-- format that the readers of crypto/tls are held to.
use edged.Base.{
  ℕ, ◌+◌, ◌*◌, ◌/◌, ◌%◌, ◌<◌, ◌≡◌, ◌≢◌, List, [], ◌∷◌, ◌++◌, Option, none, some, arith, length,
  Bytes, length-append, refl, ◌∙◌, ap, uint16_at, ok, At, At-uint16, At-step,
}

-- A server_name extension holds one host name; the kind of any other is not zero.
pub data Extension : Type 0 where
  server_name : Bytes → Extension
  other : ℕ → Bytes → Extension

pub record HelloText : Type 0 where
  pub version : ℕ
  pub random : Bytes
  pub session_id : Bytes
  pub cipher_suites : List ℕ
  pub compression_methods : Bytes
  pub extensions : List Extension

abbrev pub put16 : ℕ → Bytes → Bytes
put16 n rest = (n / 256) ∷ (n % 256) ∷ rest

-- The list of host names, which holds the one.
abbrev pub sni_data : Bytes → Bytes
sni_data name = put16 (3 + length name) (0 ∷ put16 (length name) name)

abbrev pub put_extension : Extension → Bytes → Bytes
put_extension (server_name name) rest = put16 0 (put16 (5 + length name) (sni_data name ++ rest))
put_extension (other kind body) rest = put16 kind (put16 (length body) (body ++ rest))

abbrev pub put_extensions : List Extension → Bytes → Bytes
put_extensions [] rest = rest
put_extensions (e ∷ es) rest = put_extension e (put_extensions es rest)

abbrev pub extension_size : Extension → ℕ
extension_size (server_name name) = 9 + length name
extension_size (other kind body) = 4 + length body

abbrev pub extensions_size : List Extension → ℕ
extensions_size [] = 0
extensions_size (e ∷ es) = extension_size e + extensions_size es

abbrev pub suites : List ℕ → Bytes
suites [] = []
suites (c ∷ cs) = put16 c (suites cs)

pub length-suites : (cs : List ℕ) → length (suites cs) ≡ 2 * length cs
length-suites [] = omega arith
length-suites (c ∷ cs) = omega (arith, length-suites cs)

module _ (h : HelloText) where
  open h use {version, random, session_id, cipher_suites, compression_methods, extensions}

  abbrev pub put_extension_block : Bytes → Bytes
  put_extension_block rest = put16 (extensions_size extensions) (put_extensions extensions rest)

  abbrev pub put_compression : Bytes → Bytes
  put_compression rest =
      length compression_methods ∷ (compression_methods ++ put_extension_block rest)

  abbrev pub put_suites : Bytes → Bytes
  put_suites rest = put16 (2 * length cipher_suites) (suites cipher_suites ++ put_compression rest)

  abbrev pub put_session : Bytes → Bytes
  put_session rest = length session_id ∷ (session_id ++ put_suites rest)

  abbrev pub put_body : Bytes → Bytes
  put_body rest = put16 version (random ++ put_session rest)

  abbrev pub body_size : ℕ
  body_size =
      40
      + length session_id
      + 2 * length cipher_suites
      + length compression_methods
      + extensions_size extensions

  -- The handshake message: its type, its length in three bytes, its body.
  abbrev pub put_handshake : Bytes → Bytes
  put_handshake rest = 1 ∷ (body_size / 65536) ∷ put16 (body_size % 65536) (put_body rest)

  -- The record: its type, the version of its layer, its length, the message.
  abbrev pub put_record : Bytes → Bytes
  put_record rest = 22 ∷ 3 ∷ 1 ∷ put16 (4 + body_size) (put_handshake rest)

abbrev pub OtherKinds : List Extension → Type 0
OtherKinds [] = Unit
OtherKinds (server_name name ∷ es) = OtherKinds es
OtherKinds (other kind body ∷ es) = (kind ≢ 0) × OtherKinds es

-- Every length fits the field that holds it.
pub record WellFormed (h : HelloText) : Type 0 where
  pub random_size : length h.random ≡ 32
  pub session_fits : length h.session_id < 256
  pub suites_fit : 2 * length h.cipher_suites < 65536
  pub compression_fits : length h.compression_methods < 256
  pub extensions_fit : extensions_size h.extensions < 65536
  pub record_fits : 4 + body_size h < 65536
  pub kinds : OtherKinds h.extensions

-- The first host name of the extensions.
abbrev pub first_name : List Extension → Option Bytes
first_name [] = none
first_name (server_name name ∷ es) = some name
first_name (other kind body ∷ es) = first_name es

pub join16 : (n : ℕ) → n / 256 * 256 + n % 256 ≡ n
join16 n = omega arith

pub length-put_extensions :
    (es : List Extension) (rest : Bytes)
    → length (put_extensions es rest) ≡ extensions_size es + length rest
length-put_extensions [] rest = omega arith
length-put_extensions (server_name name ∷ es) rest =
    omega (arith, length-append name (put_extensions es rest), length-put_extensions es rest)
length-put_extensions (other kind body ∷ es) rest =
    omega (arith, length-append body (put_extensions es rest), length-put_extensions es rest)

-- A two-byte field reads as the number that was written.
pub At-put16 :
    {b : Bytes} (pos n : ℕ) (rest : Bytes) → At b pos (put16 n rest) → uint16_at b pos ≡ ok n
At-put16 pos n rest a = At-uint16 pos (n / 256) (n % 256) rest a ∙ ap ok (join16 n)

pub At-put16_step :
    {b : Bytes} (pos n : ℕ) (rest : Bytes) → At b pos (put16 n rest) → At b (pos + 2) rest
At-put16_step pos n rest a = At-step pos ((n / 256) ∷ (n % 256) ∷ []) rest (pos + 2) a refl
