-- ===== src/Acme/Provisioning/Settings.antt =====
-- What the settings of an entry say: its timings, its client and its credentials.
use edged.Base.{
  ℕ, ◌+◌, ◌∷◌, zero, suc, ◌*◌, ◌≤◌, ◌≡◌, ◌≢◌, refl, ◌∙◌, ◌⊎◌, inl, inr, Bool, true, false, Option,
  none, some, [], is_empty, is_empty-eq, Bytes, if-true, if-false, on_branches, Bool-cases, ltb,
  ltb→lt, lt→ltb, lt→ltb_false, arith, ◌-◌, ◌%◌,
}
use edged.Base.Int.{ℤ, pos, negsuc}
use edged.Config.{CloudflareConfig}
use edged.Acme.Options.{second}
use edged.Acme.Provisioning.{
  DnsLib, Timings, CloudflareAuth, by_token, by_email, wrap_64, or_seconds, or_ttl, override,
  cloudflare_auth, dns_client,
}

-- The most whole seconds whose nanoseconds fit an int64.
abbrev pub max_seconds : ℕ
max_seconds = 9223372036

-- A setting in seconds, where it is positive, else the default; nothing is said where its
-- nanoseconds do not fit.
abbrev pub Seconds : ℤ → ℤ → ℤ → Type 0
Seconds default_value (pos zero) t = t ≡ default_value
Seconds default_value (pos (suc n)) t = (max_seconds ≤ n) ⊎ (t ≡ pos (suc n * second))
Seconds default_value (negsuc n) t = t ≡ default_value

-- A setting, where it is positive, else the default.
abbrev pub Positive : ℤ → ℤ → ℤ → Type 0
Positive default_value (pos zero) t = t ≡ default_value
Positive default_value (pos (suc n)) t = t ≡ pos (suc n)
Positive default_value (negsuc n) t = t ≡ default_value

pub record TimedBy (defaults : Timings) (propagation_timeout polling_interval ttl : ℤ) (t : Timings)
    : Type 0 where
  pub propagation : Seconds defaults.propagation_timeout propagation_timeout t.propagation_timeout
  pub polling : Seconds defaults.polling_interval polling_interval t.polling_interval
  pub lifetime : Positive defaults.ttl ttl t.ttl

-- The token where there is one, else the email address and its key.
pub data AuthOf (cf : CloudflareConfig) : CloudflareAuth → Type 0 where
  with_token : cf.api_token ≢ [] → AuthOf cf (by_token cf.api_token cf.zone_token)
  with_email : cf.api_token ≡ [] → AuthOf cf (by_email cf.auth_email cf.auth_key)

-- The manager's transport with the timeout, where the entry asks for SOCKS5 and there is one, else
-- the default client.
pub data ClientOf {T : Type 0} (transport : Option T) (timeout : ℤ) (use_socks5 : Bool)
    : Option (T × ℤ) → Type 0 where
  through :
      (t : T)
      → transport ≡ some t
      → use_socks5 ≡ true
      → ClientOf transport timeout use_socks5 (some (t, timeout))
  default_client :
      (transport ≡ none) ⊎ (use_socks5 ≡ false) → ClientOf transport timeout use_socks5 none

wrap_64-small : (n : ℕ) → n ≤ 9223372036854775807 → wrap_64 n ≡ pos n
unfolding wrap_64
wrap_64-small n h =
    let fits : n % 18446744073709551616 ≡ n = omega arith in
    rw fits (
      if-true (pos n) (negsuc (18446744073709551615 - n))
        (lt→ltb n 9223372036854775808 (omega arith)))

or_seconds-Seconds : (default_value n : ℤ) → Seconds default_value n (or_seconds default_value n)
unfolding or_seconds
or_seconds-Seconds default_value (pos zero) = refl
or_seconds-Seconds default_value (pos (suc n)) = elim (Bool-cases (ltb n max_seconds)) [
  | inl t ↦
      let lt = ltb→lt n max_seconds t in
      inr (
        if-true _ _ (lt→ltb 0 (suc n) (omega arith)) ∙ wrap_64-small (suc n * second) (omega arith))
  | inr f ↦ inl (ground arith)
]
or_seconds-Seconds default_value (negsuc n) = refl

or_ttl-Positive : (default_value n : ℤ) → Positive default_value n (or_ttl default_value n)
unfolding or_ttl
or_ttl-Positive default_value (pos zero) = refl
or_ttl-Positive default_value (pos (suc n)) = if-true _ _ (lt→ltb (0 + 0) (suc n + 0) (omega arith))
or_ttl-Positive default_value (negsuc n) =
    if-false _ _ (lt→ltb_false (0 + suc n) (0 + 0) (omega arith))

pub override-TimedBy :
    (defaults : Timings) (propagation_timeout polling_interval ttl : ℤ)
    → TimedBy defaults propagation_timeout polling_interval ttl
        (override defaults propagation_timeout polling_interval ttl)
unfolding override
override-TimedBy defaults propagation_timeout polling_interval ttl = record {
  propagation = or_seconds-Seconds defaults.propagation_timeout propagation_timeout;
  polling = or_seconds-Seconds defaults.polling_interval polling_interval;
  lifetime = or_ttl-Positive defaults.ttl ttl;
}

pub cloudflare_auth-AuthOf : (cf : CloudflareConfig) → AuthOf cf (cloudflare_auth cf)
unfolding cloudflare_auth
cloudflare_auth-AuthOf cf =
    on_branches (AuthOf cf) (is_empty cf.api_token) _ _ (λ e. with_email (is_empty-eq _ e))
      (λ e. with_token (filled cf.api_token e))
  where
    filled : (s : Bytes) → is_empty s ≡ false → s ≢ []
    filled [] h e = cc
    filled (c ∷ s) h e = cc

pub dns_client-ClientOf :
    (lib : DnsLib) (transport : Option lib.Transport) (timeout : ℤ) (use_socks5 : Bool)
    → ClientOf transport timeout use_socks5 (dns_client lib transport timeout use_socks5)
unfolding dns_client
dns_client-ClientOf lib none timeout use_socks5 = default_client (inl refl)
dns_client-ClientOf lib (some t) timeout true = through t refl refl
dns_client-ClientOf lib (some t) timeout false = default_client (inr refl)
