-- ===== src/Acme/DnsRouter/Timing.antt =====
-- The propagation settings that lego is given.
use edged.Base.{
  ◌+◌, ◌≤◌, ◌≡◌, refl, sym, ◌∙◌, inl, inr, none, some, List, [], ◌∷◌, arith, Option-cases,
}
use edged.Base.Int.{ℤ, pos, pos_part, neg_part}
use mathlib.Core.Path.{subst}
use mathlib.Core.Option.{some-injective}
use edged.Acme.DnsRouter
use edged.Acme.DnsRouter.{Challenge}

abbrev pub AtMost : ℤ → ℤ → Type 0
AtMost a b = pos_part a + neg_part b ≤ pos_part b + neg_part a

abbrev pub Positive : ℤ → Type 0
Positive a = AtMost (pos 1) a

module _ (lib : Challenge) where
  open lib use {Provider, settings, default_propagation_timeout, default_polling_interval}

  -- Every provider has at least the time it asks for, and is polled no less often.
  abbrev pub Suffices : ℤ → ℤ → List Provider → Type 0
  Suffices timeout interval [] = Unit
  Suffices timeout interval (p ∷ providers) =
      ((t i : ℤ) → settings p ≡ some (t, i) → AtMost t timeout × (Positive i → AtMost interval i))
      × Suffices timeout interval providers

  longer_timeout-le :
      (t timeout : ℤ)
      → AtMost timeout (DnsRouter.longer_timeout lib t timeout)
        × AtMost t (DnsRouter.longer_timeout lib t timeout)
  unfolding DnsRouter.longer_timeout
  longer_timeout-le t timeout = ground arith

  shorter_interval-le :
      (i interval : ℤ)
      → AtMost (pos 0) interval
      → let next = DnsRouter.shorter_interval lib i interval in
        AtMost (pos 0) next
        × (Positive interval → AtMost next interval × Positive next)
        × (Positive i → AtMost next i × Positive next)
  unfolding DnsRouter.shorter_interval
  shorter_interval-le i interval h = ground arith

  -- The bounds of a round hold to the end of the loop.
  record Bounded (timeout interval : ℤ) (r : ℤ × ℤ) : Type 0 where
    longer : AtMost timeout r.0
    not_negative : AtMost (pos 0) r.1
    shorter : Positive interval → AtMost r.1 interval × Positive r.1

  abbrev Within : ℤ × ℤ → List Provider → Type 0
  Within r [] = Unit
  Within r (p ∷ providers) =
      ((t i : ℤ)
        → settings p ≡ some (t, i)
        → AtMost t r.0 × (Positive i → AtMost r.1 i × Positive r.1))
      × Within r providers

  Bounded-next :
      (t i timeout interval : ℤ) (r : ℤ × ℤ)
      → AtMost (pos 0) interval
      → Bounded
          (DnsRouter.longer_timeout lib t timeout)
          (DnsRouter.shorter_interval lib i interval)
          r
      → Bounded timeout interval r × (AtMost t r.0 × (Positive i → AtMost r.1 i × Positive r.1))
  Bounded-next t i timeout interval r h b =
      let (kept, reached) = longer_timeout-le t timeout in
      let (sign, before, own) = shorter_interval-le i interval h in
      (
        record {
          longer = omega (arith, b.longer);
          not_negative = b.not_negative;
          shorter = λ p.
              (omega (arith, (before p).0, (b.shorter (before p).1).0), (b.shorter (before p).1).1);
        },
        (
          omega (arith, b.longer),
          λ p. (omega (arith, (own p).0, (b.shorter (own p).1).0), (b.shorter (own p).1).1),
        ),
      )

  aggregate-skip :
      (p : Provider) (providers : List Provider) (acc : ℤ × ℤ)
      → settings p ≡ none
      → DnsRouter.aggregate lib (p ∷ providers) acc ≡ DnsRouter.aggregate lib providers acc
  unfolding DnsRouter.aggregate
  aggregate-skip p providers acc e = rw e refl

  aggregate-take :
      (p : Provider) (providers : List Provider) (timeout interval t i : ℤ)
      → settings p ≡ some (t, i)
      → DnsRouter.aggregate lib (p ∷ providers) (timeout, interval)
        ≡ DnsRouter.aggregate lib providers
            (DnsRouter.longer_timeout lib t timeout, DnsRouter.shorter_interval lib i interval)
  unfolding DnsRouter.aggregate
  aggregate-take p providers timeout interval t i e = rw e refl

  abbrev Own : ℤ × ℤ → ℤ × ℤ → Type 0
  Own r (t, i) = AtMost t r.0 × (Positive i → AtMost r.1 i × Positive r.1)

  aggregate-Bounded :
      (providers : List Provider) (timeout interval : ℤ)
      → AtMost (pos 0) interval
      → Bounded timeout interval (DnsRouter.aggregate lib providers (timeout, interval))
        × Within (DnsRouter.aggregate lib providers (timeout, interval)) providers
  aggregate-Bounded [] timeout interval h =
      unfold DnsRouter.aggregate in
      (record { longer = omega arith; not_negative = h; shorter = λ p. (omega arith, p) }, tt)
  aggregate-Bounded (p ∷ providers) timeout interval h = elim (Option-cases (settings p)) [
    | inl absent ↦
        subst (λ r. Bounded timeout interval r × Within r (p ∷ providers))
          (sym (aggregate-skip p providers (timeout, interval) absent))
          (let (b, w) = aggregate-Bounded providers timeout interval h in
            (b, (λ t i e. absurd (cc (sym absent ∙ e)), w)))
    | inr ((t, i), given) ↦
        subst (λ r. Bounded timeout interval r × Within r (p ∷ providers))
          (sym (aggregate-take p providers timeout interval t i given))
          (let (b, w) = aggregate-Bounded providers _ _ (shorter_interval-le i interval h).0 in
            let (now, own) = Bounded-next t i timeout interval _ h b in
            (
              now,
              (λ t' i' e. subst (Own _) (some-injective (t, i) (t', i') (sym given ∙ e)) own, w),
            ))
  ]

  Within-Suffices :
      (providers : List Provider) (timeout interval : ℤ)
      → Positive default_propagation_timeout
      → Within (timeout, interval) providers
      → Suffices
          (DnsRouter.or_default lib default_propagation_timeout timeout)
          (DnsRouter.or_default lib default_polling_interval interval)
          providers
  unfolding DnsRouter.or_default
  Within-Suffices [] timeout interval d w = tt
  Within-Suffices (p ∷ providers) timeout interval d w =
      (λ t i e. ground (arith, w.0 t i e), Within-Suffices providers timeout interval d w.1)

  or_default-Positive :
      (default_value n : ℤ)
      → Positive default_value
      → Positive (DnsRouter.or_default lib default_value n)
  unfolding DnsRouter.or_default
  or_default-Positive default_value n d = ground arith

  -- Where the two default values are positive, the timeout is at least that of every provider that
  -- reports one, the interval at most every positive interval reported, and both are positive.
  pub timeouts-Suffices :
      (r : DnsRouter.RoutedDnsProvider lib)
      → Positive default_propagation_timeout
      → Positive default_polling_interval
      → Suffices (DnsRouter.timeouts lib r).0 (DnsRouter.timeouts lib r).1 r.providers
        × Positive (DnsRouter.timeouts lib r).0
        × Positive (DnsRouter.timeouts lib r).1
  unfolding DnsRouter.timeouts
  timeouts-Suffices r d e =
      let found = DnsRouter.aggregate lib r.providers (pos 0, pos 0) in
      let (b, w) = aggregate-Bounded r.providers (pos 0) (pos 0) (omega arith) in
      (
        Within-Suffices r.providers found.0 found.1 d w,
        or_default-Positive default_propagation_timeout found.0 d,
        or_default-Positive default_polling_interval found.1 e,
      )
