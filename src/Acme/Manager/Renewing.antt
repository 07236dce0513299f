-- ===== src/Acme/Manager/Renewing.antt =====
-- acme/manager.go: the renewal daemon, over what its `select` receives.
use edged.Base.{◌≡◌, sym, ◌⊎◌, inl, inr, Option, none, some, List, [], ◌∷◌, Bytes, All}
use mathlib.Core.Path.{subst}
use edged.Config.Domains.Members.{Any}
use edged.Acme.Manager
use edged.Acme.Manager.{AcmeLib, ManagerError}
use edged.Acme.Manager.Storing.{Memory, Loaded, IsPaired}
use edged.Acme.Manager.Ensuring.{Ensured, ensure_domains-Ensured}

module _ (lib : AcmeLib) where
  open lib use {World}

  -- The context is done, or the ticker has ticked, and the world is then as given.
  pub data Received : Type 0 where
    ctx_done : Received
    ticked : World → Received

  -- The goroutine of `StartRenewalDaemon`, which returns once the context is done: the manager behind
  -- it, and what the calls of `EnsureDomains` returned.
  unfoldable pub renewal_loop :
      List Bytes → List Received → Memory lib → Memory lib × List (Option ManagerError)
  renewal_loop domains [] m = (m, [])
  renewal_loop domains (ctx_done ∷ received) m = (m, [])
  renewal_loop domains (ticked w ∷ received) m =
      let (e, (m1, w1)) = Manager.ensure_domains lib domains m w in
      let (m2, es) = renewal_loop domains received m1 in (m2, e ∷ es)

  -- A call of `EnsureDomains` keeps the pairs, and the certificates that are there for all domains.
  step-keeps :
      (domains : List Bytes) (m : Memory lib) (r : Manager.Result lib)
      → Ensured lib domains m r
      → All (Loaded lib m) domains ⊎ (r.0 ≡ none)
      → All (Loaded lib r.1.0) domains
  step-keeps domains m (none, (m', w)) e h = e.1
  step-keeps domains m (some err, (m', w)) e (inl l) =
      subst (λ t. All (Loaded lib t) domains) (sym e.1) l
  step-keeps domains m (some err, (m', w)) e (inr n) = absurd (cc n)

  step-IsPaired :
      (domains : List Bytes) (m : Memory lib) (r : Manager.Result lib)
      → Ensured lib domains m r
      → IsPaired lib r.1.0
  step-IsPaired domains m (none, (m', w)) e = e.0
  step-IsPaired domains m (some err, (m', w)) e = e.0

  -- Where every domain with an expiry has a certificate, the renewal daemon keeps that,
  -- whatever its `select` receives and however its calls end. If all domains had a certificate when it
  -- started, or one of its calls of `EnsureDomains` has returned without an error, all domains have a certificate
  -- from then on.
  pub renewal_loop-keeps :
      (domains : List Bytes) (received : List Received) (m : Memory lib)
      → IsPaired lib m
      → All (Loaded lib m) domains ⊎ Any (λ e. e ≡ none) (renewal_loop domains received m).1
      → IsPaired lib (renewal_loop domains received m).0
        × All (Loaded lib (renewal_loop domains received m).0) domains
  unfolding renewal_loop
  renewal_loop-keeps domains [] m p (inl l) = (p, l)
  renewal_loop-keeps domains [] m p (inr s) = absurd s
  renewal_loop-keeps domains (ctx_done ∷ received) m p (inl l) = (p, l)
  renewal_loop-keeps domains (ctx_done ∷ received) m p (inr s) = absurd s
  renewal_loop-keeps domains (ticked w ∷ received) m p h =
      let r = Manager.ensure_domains lib domains m w in
      let e = ensure_domains-Ensured lib domains m w p in
      renewal_loop-keeps domains received r.1.0 (step-IsPaired domains m r e) (later r e h)
    where
      later :
          (r : Manager.Result lib)
          → Ensured lib domains m r
          → All (Loaded lib m) domains
            ⊎ ((r.0 ≡ none) ⊎ Any (λ e. e ≡ none) (renewal_loop domains received r.1.0).1)
          → All (Loaded lib r.1.0) domains
            ⊎ Any (λ e. e ≡ none) (renewal_loop domains received r.1.0).1
      later r e (inl l) = inl (step-keeps domains m r e (inl l))
      later r e (inr (inl n)) = inl (step-keeps domains m r e (inr n))
      later r e (inr (inr s)) = inr s
