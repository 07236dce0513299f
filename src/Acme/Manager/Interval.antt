-- ===== src/Acme/Manager/Interval.antt =====
-- acme/manager.go: the interval that `StartRenewalDaemon` computes, with the wrap-around of its
-- product, and the start of the daemon.
use edged.Base.{
  ℕ, suc, ◌+◌, ◌-◌, ◌*◌, ◌%◌, ◌≤◌, ◌<◌, true, ◌≡◌, refl, ◌∙◌, ap, ◌⊎◌, inl, inr, arith, Option,
  none, List, Bytes, All, if◌then◌else◌, if-true, if-false, Bool-cases, ltb, ltb→lt, lt→ltb,
  lt→ltb_false, on_branches, Ensures, zero, Run, ok, panic,
}
use edged.Base.Int.{ℤ, pos, negsuc, ltb_ℤ}
use edged.Config.Domains.Members.{Any}
use edged.Acme.Manager.{AcmeLib, ManagerError}
use edged.Acme.Manager.Storing.{Memory, Loaded, IsPaired}
use edged.Acme.Manager.Renewing.{Received, renewal_loop, renewal_loop-keeps}

-- `time.Hour`, in nanoseconds
abbrev pub hour : ℕ
hour = 3600000000000

-- The 64 bits of an integer, and the integer of 64 bits.
unfoldable pub bits : ℤ → ℕ
bits (pos n) = n % 18446744073709551616
bits (negsuc n) = 18446744073709551615 - n % 18446744073709551616

unfoldable pub signed : ℕ → ℤ
signed u = if ltb u 9223372036854775808 then pos u else negsuc (18446744073709551615 - u)

-- The product of two int64, the second of which is the hour.
unfoldable pub in_hours : ℤ → ℤ
in_hours z = signed (bits z * hour % 18446744073709551616)

-- The interval, for a `constants.Day` of another package.
unfoldable pub renewal_interval : ℤ → ℤ → ℤ
renewal_interval day hours =
    let interval = in_hours hours in if ltb_ℤ (pos 0) interval then interval else day

-- The most hours that an int64 of nanoseconds holds.
abbrev pub max_hours : ℕ
max_hours = 2562047

-- The interval that the setting asks for; nothing is said where the product does not fit.
abbrev pub Ticks : ℤ → ℤ → ℤ → Type 0
Ticks day (pos zero) i = i ≡ day
Ticks day (pos (suc n)) i = (max_hours ≤ n) ⊎ (i ≡ pos (suc n * hour))
Ticks day (negsuc n) i = (max_hours ≤ n) ⊎ (i ≡ day)

signed-small : (u : ℕ) → u ≤ 9223372036854775807 → signed u ≡ pos u
unfolding signed
signed-small u h = if-true _ _ (lt→ltb u 9223372036854775808 (omega arith))

in_hours-pos : (n : ℕ) → n ≤ max_hours → in_hours (pos n) ≡ pos (n * hour)
unfolding in_hours bits
in_hours-pos n h =
    let fits : n % 18446744073709551616 * hour % 18446744073709551616 ≡ n * hour = omega arith in
    ap signed fits ∙ signed-small (n * hour) (omega arith)

in_hours-negsuc : (n : ℕ) → n < max_hours → in_hours (negsuc n) ≡ negsuc (suc n * hour - 1)
unfolding in_hours bits signed
in_hours-negsuc n h =
    let wrapped : (18446744073709551615 - n % 18446744073709551616) * hour % 18446744073709551616
        ≡ 18446744073709551616 - suc n * hour =
      omega arith in
    ap signed wrapped
    ∙ if-false _ _
        (lt→ltb_false (18446744073709551616 - suc n * hour) 9223372036854775808 (omega arith))
    ∙ ap negsuc {x = 18446744073709551615 - (18446744073709551616 - suc n * hour)} (omega arith)

renewal_interval-Ticks : (day hours : ℤ) → Ticks day hours (renewal_interval day hours)
unfolding renewal_interval
renewal_interval-Ticks day (pos zero) = rw (in_hours-pos 0 (omega arith)) refl
renewal_interval-Ticks day (pos (suc n)) = elim (Bool-cases (ltb n max_hours)) [
  | inl t ↦
      let lt = ltb→lt n max_hours t in
      inr (
        rw (in_hours-pos (suc n) (omega arith))
          (if-true _ _ (lt→ltb (0 + 0) (suc n * hour + 0) (omega arith))))
  | inr f ↦ inl (ground arith)
]
renewal_interval-Ticks day (negsuc n) = elim (Bool-cases (ltb n max_hours)) [
  | inl t ↦
      let lt = ltb→lt n max_hours t in
      inr (
        rw (in_hours-negsuc n (omega arith))
          (if-false _ _ (lt→ltb_false (0 + suc (suc n * hour - 1)) (0 + 0) (omega arith))))
  | inr f ↦ inl (ground arith)
]

renewal_interval-positive :
    (day hours : ℤ) → ltb_ℤ (pos 0) day ≡ true → ltb_ℤ (pos 0) (renewal_interval day hours) ≡ true
unfolding renewal_interval
renewal_interval-positive day hours h =
    on_branches (λ i. ltb_ℤ (pos 0) i ≡ true) (ltb_ℤ (pos 0) (in_hours hours)) _ _ (λ t. t) (λ f. h)

module _ (lib : AcmeLib) where
  -- `StartRenewalDaemon`; `time.NewTicker` panics on an interval that is not positive.
  unfoldable pub start_renewal_daemon :
      ℤ
      → List Bytes
      → List (Received lib)
      → Memory lib
      → Run (Memory lib × List (Option ManagerError))
  start_renewal_daemon day domains received m =
      if ltb_ℤ (pos 0) (renewal_interval day m.cfg.check_interval_hours)
      then ok (renewal_loop lib domains received m)
      else panic

  -- What the daemon has done: all domains have a certificate.
  abbrev pub Keeps : List Bytes → Memory lib × List (Option ManagerError) → Type 0
  Keeps domains (m, es) = IsPaired lib m × All (Loaded lib m) domains

  -- The start of the daemon never panics, for a default interval that is positive, and the interval
  -- is the hours of the setting, or the default one for hours that are not positive, where their
  -- nanoseconds fit an int64. The daemon keeps certificates for all domains, whatever its `select`
  -- receives and however its calls end, if every domain with an expiry has a certificate: if all
  -- domains had one when it started, or one of its calls of `EnsureDomains` has returned without an
  -- error, all domains have one from then on.
  pub start_renewal_daemon-Keeps :
      (day : ℤ) (domains : List Bytes) (received : List (Received lib)) (m : Memory lib)
      → ltb_ℤ (pos 0) day ≡ true
      → IsPaired lib m
      → All (Loaded lib m) domains ⊎ Any (λ e. e ≡ none) (renewal_loop lib domains received m).1
      → Ensures (Keeps domains) (start_renewal_daemon day domains received m)
        × Ticks day m.cfg.check_interval_hours (renewal_interval day m.cfg.check_interval_hours)
  unfolding start_renewal_daemon
  start_renewal_daemon-Keeps day domains received m d p h = (
    rw (renewal_interval-positive day m.cfg.check_interval_hours d)
        (renewal_loop-keeps lib domains received m p h),
    renewal_interval-Ticks day m.cfg.check_interval_hours,
  )
