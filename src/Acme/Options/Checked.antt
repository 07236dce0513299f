-- ===== src/Acme/Options/Checked.antt =====
-- Which options are refused, and what holds behind all others.
use edged.Base.{
  ◌≡◌, refl, true, not, Option, none, some, List, [], ◌∷◌, ◌⊎◌, inl, inr, All, on_branches, arith,
}
use edged.Base.Int.{ℤ, pos, ltb_ℤ}
use edged.Config.{AcmeConfig}
use edged.Acme.Options.{
  OptionError, ManagerOptions, ManagerOption, with_config, with_config_func, with_email,
  with_storage_path, with_directory_url, with_socks5_proxy, with_certificate_key_type,
  with_renew_before_days, with_check_interval_hours, with_http_timeout, with_dns_http_timeout,
  with_http_transport, with_http_client, with_recursive_nameservers, with_account_registration,
  with_terms_of_service_agreed, with_load_existing_certificates, set_http_timeout,
  set_dns_http_timeout, apply_option, apply_options, default_manager_options,
}

module _ (Transport : Type 0) (HttpClient : Type 0) where
  -- The option has no nil argument, and no timeout that is not positive.
  abbrev pub IsProper : Option (ManagerOption Transport HttpClient) → Type 0
  IsProper none = Unit
  IsProper (some (with_config_func none)) = ⊥
  IsProper (some (with_http_transport none)) = ⊥
  IsProper (some (with_http_client none)) = ⊥
  IsProper (some (with_http_timeout timeout)) = ltb_ℤ (pos 0) timeout ≡ true
  IsProper (some (with_dns_http_timeout timeout)) = ltb_ℤ (pos 0) timeout ≡ true
  IsProper (some opt) = Unit

  -- Both timeouts are positive.
  pub record IsTimed (o : ManagerOptions Transport HttpClient) : Type 0 where
    pub http : ltb_ℤ (pos 0) o.http_timeout ≡ true
    pub dns : ltb_ℤ (pos 0) o.dns_http_timeout ≡ true

  -- The call succeeds exactly when the condition holds, and keeps the timeouts positive.
  abbrev pub Kept : Type 0 → OptionError ⊎ ManagerOptions Transport HttpClient → Type 0
  Kept P (inl e) = ¬ P
  Kept P (inr o) = P × IsTimed o

  timed_http-Kept :
      (timeout : ℤ) (o : ManagerOptions Transport HttpClient)
      → IsTimed o
      → Kept (ltb_ℤ (pos 0) timeout ≡ true) (set_http_timeout Transport HttpClient timeout o)
  unfolding set_http_timeout
  timed_http-Kept timeout o t =
      on_branches (Kept (ltb_ℤ (pos 0) timeout ≡ true)) (not (ltb_ℤ (pos 0) timeout)) _ _
        (λ refused p. ground arith)
        (λ taken.
          let p : ltb_ℤ (pos 0) timeout ≡ true = ground arith in
          (p, record { http = p; dns = t.dns }))

  timed_dns-Kept :
      (timeout : ℤ) (o : ManagerOptions Transport HttpClient)
      → IsTimed o
      → Kept (ltb_ℤ (pos 0) timeout ≡ true) (set_dns_http_timeout Transport HttpClient timeout o)
  unfolding set_dns_http_timeout
  timed_dns-Kept timeout o t =
      on_branches (Kept (ltb_ℤ (pos 0) timeout ≡ true)) (not (ltb_ℤ (pos 0) timeout)) _ _
        (λ refused p. ground arith)
        (λ taken.
          let p : ltb_ℤ (pos 0) timeout ≡ true = ground arith in
          (p, record { http = t.http; dns = p }))

  apply_option-Kept :
      (opt : ManagerOption Transport HttpClient) (o : ManagerOptions Transport HttpClient)
      → IsTimed o
      → Kept (IsProper (some opt)) (apply_option Transport HttpClient opt o)
  unfolding apply_option
  apply_option-Kept (with_config cfg) o t = (tt, record { http = t.http; dns = t.dns })
  apply_option-Kept (with_config_func none) o t = λ b. b
  apply_option-Kept (with_config_func (some fn)) o t = (tt, record { http = t.http; dns = t.dns })
  apply_option-Kept (with_email email) o t = (tt, record { http = t.http; dns = t.dns })
  apply_option-Kept (with_storage_path path) o t = (tt, record { http = t.http; dns = t.dns })
  apply_option-Kept (with_directory_url url) o t = (tt, record { http = t.http; dns = t.dns })
  apply_option-Kept (with_socks5_proxy proxy) o t = (tt, record { http = t.http; dns = t.dns })
  apply_option-Kept (with_certificate_key_type key_type) o t =
      (tt, record { http = t.http; dns = t.dns })
  apply_option-Kept (with_renew_before_days days) o t = (tt, record { http = t.http; dns = t.dns })
  apply_option-Kept (with_check_interval_hours hours) o t =
      (tt, record { http = t.http; dns = t.dns })
  apply_option-Kept (with_http_timeout timeout) o t = timed_http-Kept timeout o t
  apply_option-Kept (with_dns_http_timeout timeout) o t = timed_dns-Kept timeout o t
  apply_option-Kept (with_http_transport none) o t = λ b. b
  apply_option-Kept (with_http_transport (some tr)) o t =
      (tt, record { http = t.http; dns = t.dns })
  apply_option-Kept (with_http_client none) o t = λ b. b
  apply_option-Kept (with_http_client (some c)) o t = (tt, record { http = t.http; dns = t.dns })
  apply_option-Kept (with_recursive_nameservers servers) o t =
      (tt, record { http = t.http; dns = t.dns })
  apply_option-Kept (with_account_registration enabled) o t =
      (tt, record { http = t.http; dns = t.dns })
  apply_option-Kept (with_terms_of_service_agreed agreed) o t =
      (tt, record { http = t.http; dns = t.dns })
  apply_option-Kept (with_load_existing_certificates enabled) o t =
      (tt, record { http = t.http; dns = t.dns })

  apply_options-Kept :
      (opts : List (Option (ManagerOption Transport HttpClient)))
      (o : ManagerOptions Transport HttpClient)
      → IsTimed o
      → Kept (All IsProper opts) (apply_options Transport HttpClient opts o)
  unfolding apply_options
  apply_options-Kept [] o t = (tt, t)
  apply_options-Kept (none ∷ opts) o t =
      weaken (apply_options Transport HttpClient opts o) (apply_options-Kept opts o t)
    where
      weaken :
          (r : OptionError ⊎ ManagerOptions Transport HttpClient)
          → Kept (All IsProper opts) r
          → Kept (Unit × All IsProper opts) r
      weaken (inl e) n = λ w. n w.1
      weaken (inr o') k = ((tt, k.0), k.1)
  apply_options-Kept (some opt ∷ opts) o t =
      onward (apply_option Transport HttpClient opt o) (apply_option-Kept opt o t)
        (λ o1 t1. apply_options-Kept opts o1 t1)
    where
      both :
          (r : OptionError ⊎ ManagerOptions Transport HttpClient)
          → IsProper (some opt)
          → Kept (All IsProper opts) r
          → Kept (IsProper (some opt) × All IsProper opts) r
      both (inl e) p n = λ w. n w.1
      both (inr o') p k = ((p, k.0), k.1)

      onward :
          (r : OptionError ⊎ ManagerOptions Transport HttpClient)
          → Kept (IsProper (some opt)) r
          → ((o1 : ManagerOptions Transport HttpClient)
              → IsTimed o1
              → Kept (All IsProper opts) (apply_options Transport HttpClient opts o1))
          → Kept
              (IsProper (some opt) × All IsProper opts)
              (elim r [ inl e ↦ inl e | inr o1 ↦ apply_options Transport HttpClient opts o1 ])
      onward (inl e) n later = λ w. n w.0
      onward (inr o1) k later = both (apply_options Transport HttpClient opts o1) k.0 (later o1 k.1)

  -- On the default options, any list of options is applied as a whole exactly when none of them has a nil
  -- argument or a timeout that is not positive, and then both timeouts are positive; nil options are
  -- passed over. In all other lists an option is refused.
  pub default_options-Kept :
      (zero_config : AcmeConfig) (opts : List (Option (ManagerOption Transport HttpClient)))
      → Kept (All IsProper opts) (
          apply_options Transport HttpClient opts
            (default_manager_options Transport HttpClient zero_config))
  unfolding default_manager_options
  default_options-Kept zero_config opts =
      apply_options-Kept opts (default_manager_options Transport HttpClient zero_config)
        (record { http = refl; dns = refl })
