-- ===== src/Tls/Hello/Receiver.antt =====
-- The receiver of `Unmarshal`, its errors, and the monad of a method that changes the receiver,
-- may return an error and may panic.
use edged.Base.{ℕ, List, Bytes, Run, ok, panic, no_fuel}

-- `SNIHostNames` is the array of four slices, `[]` where the code has `nil`.
pub record ClientHello : Type 0 where
  pub version : ℕ
  pub random : Bytes
  pub session_id : Bytes
  pub cipher_suites : List ℕ
  pub compression_methods : Bytes
  pub sni_host_names : List Bytes
  pub sni_count : ℕ

pub data HelloError : Type 0 where
  client_hello_too_short truncated_record not_a_client_hello extensions_truncated : HelloError
  data_too_short not_a_handshake data_too_short_for_handshake : HelloError
  invalid_session_id invalid_session_id_length : HelloError
  invalid_cipher_suites cipher_suites_too_long : HelloError
  no_compression_methods compression_methods_out_of_bounds : HelloError

pub data Checked {ℓ} (A : Type ℓ) : Type ℓ where
  value : A → Checked A
  fail : HelloError → Checked A

abbrev pub Parser : Type 0 → Type 0
Parser A = ClientHello → Run (ClientHello × Checked A)

module _ {A : Type 0} where
  abbrev pub pure : A → Parser A
  pure a out = ok (out, value a)

  abbrev pub throw : HelloError → Parser A
  throw e out = ok (out, fail e)

  abbrev pub lift : Run A → Parser A
  lift r out = elim r [ ok a ↦ ok (out, value a) | panic ↦ panic | no_fuel ↦ no_fuel ]

abbrev pub modify : (ClientHello → ClientHello) → Parser (Unit {0})
modify f out = ok (f out, value tt)

infixl 5 ◌>>=◌ ◌>>◌
abbrev pub ◌>>=◌ : {A B : Type 0} → Parser A → (A → Parser B) → Parser B
◌>>=◌ m f out = elim (m out) [
  | ok (out', value a) ↦ f a out'
  | ok (out', fail e) ↦ ok (out', fail e)
  | panic ↦ panic
  | no_fuel ↦ no_fuel
]

abbrev pub ◌>>◌ : {B : Type 0} → Parser (Unit {0}) → Parser B → Parser B
m >> k = m >>= λ _. k
