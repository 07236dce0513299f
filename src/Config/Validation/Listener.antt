-- ===== src/Config/Validation/Listener.antt =====
-- listenerStructLevelValidation: the listeners it accepts.
use edged.Base.{
  ℕ, suc, Bool, true, ◌≡◌, refl, ap, ◌↔◌, List, [], ◌∷◌, ◌++◌, is_empty, is_empty-eq, equal_iff,
  All, arith,
}
use edged.Config.Types.{RouteConfig, ListenerConfig}
use edged.Config.Domains.{https}
use edged.Config.Validation.{upstream_violations, listener_violations}

pub no_violations {ℓ} : {A : Type ℓ} (xs ys : List A) → (xs ++ ys ≡ []) ↔ ((xs ≡ []) × (ys ≡ []))
no_violations [] ys = (λ e. (refl, e), λ w. w.1)
no_violations (x ∷ xs) ys = (λ e. cc, λ w. cc)

pub is_empty_iff {ℓ} : {A : Type ℓ} (xs : List A) → (is_empty xs ≡ true) ↔ (xs ≡ [])
is_empty_iff xs = (is_empty-eq xs, λ e. ap is_empty e)

-- Every route has an upstream, unless the listener redirects.
abbrev pub HasUpstream : Bool → RouteConfig → Type 0
HasUpstream redirects r = (r.upstream ≡ []) → redirects ≡ true

upstream_violations_iff :
    (redirects : Bool) (i : ℕ) (routes : List RouteConfig)
    → (upstream_violations redirects i routes ≡ []) ↔ All (HasUpstream redirects) routes
unfolding upstream_violations
upstream_violations_iff redirects i [] = (λ e. tt, λ w. refl)
upstream_violations_iff redirects i (r ∷ routes) =
    ground (arith, is_empty_iff r.upstream, upstream_violations_iff redirects (suc i) routes)

-- A listener is accepted by the rules across its fields exactly when an https listener that uses
-- ACME has a domain, and every route has an upstream unless the listener redirects to HTTPS.
pub listener_violations_iff :
    (l : ListenerConfig)
    → (listener_violations l ≡ []) ↔ (
        ((l.protocol ≡ https) → (l.tls.use_acme ≡ true) → ¬ (l.tls.domains ≡ []))
        × All (HasUpstream l.redirect_to_https) l.routes)
unfolding listener_violations
listener_violations_iff l = ground (
  arith,
  equal_iff l.protocol https,
  is_empty_iff l.tls.domains,
  upstream_violations_iff l.redirect_to_https 0 l.routes,
)
