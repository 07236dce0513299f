-- ===== src/Proxy/Server/Stopping.antt =====
-- What `Stop` reports.
use edged.Base.{
  ◌≡◌, refl, sym, ◌∙◌, ap, ◌↔◌, Option, none, some, List, [], ◌∷◌, ◌++◌, append-nil, map, Bytes,
  codes, is_empty, All, if◌then◌else◌, arith,
}
use mathlib.Core.Path.{subst}
use mathlib.Core.List.{filter_map}
use mathlib.Core.List.Perm
use mathlib.Core.List.{Perm, filter_map-append}
use edged.Proxy.Server.{
  HttpServer, TlsPassThroughListener, Server, Task, stop_http, stop_passthrough, tasks,
  stop_message, join_errors, stop,
}

-- The messages of the servers that do not shut down.
abbrev pub failures : (HttpServer → Option Bytes) → List HttpServer → List Bytes
failures shutdown servers = filter_map (stop_message shutdown) (map stop_http servers)

no_passthrough_failures :
    (shutdown : HttpServer → Option Bytes) (ps : List TlsPassThroughListener)
    → filter_map (stop_message shutdown) (map stop_passthrough ps) ≡ []
unfolding stop_message filter_map
no_passthrough_failures shutdown [] = refl
no_passthrough_failures shutdown (p ∷ ps) = no_passthrough_failures shutdown ps

failures-tasks :
    (shutdown : HttpServer → Option Bytes) (s : Server)
    → filter_map (stop_message shutdown) (tasks s) ≡ failures shutdown s.servers
unfolding tasks
failures-tasks shutdown s =
    filter_map-append (stop_message shutdown) (map stop_http s.servers)
      (map stop_passthrough s.tls_passthrough_servers)
    ∙ ap (λ t. failures shutdown s.servers ++ t)
        (no_passthrough_failures shutdown s.tls_passthrough_servers)
    ∙ append-nil _

failures_iff :
    (shutdown : HttpServer → Option Bytes) (servers : List HttpServer)
    → (failures shutdown servers ≡ []) ↔ All (λ srv. shutdown srv ≡ none) servers
unfolding filter_map stop_message
failures_iff shutdown [] = (λ e. tt, λ a. refl)
failures_iff shutdown (srv ∷ servers) = ground (arith, failures_iff shutdown servers)

abbrev pub report : List Bytes → Option Bytes
report [] = none
report (e ∷ errs) = some (codes "shutdown errors: " ++ join_errors (e ∷ errs))

reported :
    (errs : List Bytes)
    → (if is_empty errs then none else some (codes "shutdown errors: " ++ join_errors errs))
      ≡ report errs
reported [] = refl
reported (e ∷ errs) = refl

report-none_iff : (errs : List Bytes) → (report errs ≡ none) ↔ (errs ≡ [])
report-none_iff [] = (λ e. refl, λ e. refl)
report-none_iff (e ∷ errs) = (λ h. absurd (cc h), λ h. absurd (cc h))

Perm-nil_iff : {xs ys : List Bytes} → Perm xs ys → (xs ≡ []) ↔ (ys ≡ [])
Perm-nil_iff {xs} {ys} p = (
  λ e. Perm.eq-nil (Perm.symm (subst (λ t. Perm t ys) e p)),
  λ e. Perm.eq-nil (subst (Perm xs) e p),
)

-- In whatever order the shutdowns of a server's listeners return, `stop` reports the message of each
-- server whose shutdown fails, once for each, and no other, and it returns nil exactly when all
-- shutdowns succeed.
pub stop-report :
    (s : Server) (shutdown : HttpServer → Option Bytes) (ended : List Task)
    → Perm (tasks s) ended
    → ((errs : List Bytes) × Perm (failures shutdown s.servers) errs
        × (stop shutdown ended ≡ report errs))
      × ((stop shutdown ended ≡ none) ↔ All (λ srv. shutdown srv ≡ none) s.servers)
unfolding stop
stop-report s shutdown ended p =
    let errs = filter_map (stop_message shutdown) ended in
    let same : Perm (failures shutdown s.servers) errs =
      subst (λ t. Perm t errs) (failures-tasks shutdown s)
        (Perm.filter_map (stop_message shutdown) p) in
    let out = reported errs in
    let none_iff = report-none_iff errs in
    let nil_iff = Perm-nil_iff same in
    let all_iff = failures_iff shutdown s.servers in
    (
      (errs, same, out),
      (
        λ e. all_iff.0 (nil_iff.1 (none_iff.0 (sym out ∙ e))),
        λ a. out ∙ none_iff.1 (nil_iff.0 (all_iff.1 a)),
      ),
    )
