-- ===== src/Acme/Tests.antt =====
-- The router and the manager with a concrete authority, disk and clock.
use edged.Base.{
  Ensures, split, has_prefix, join, normalize, ℕ, ◌≡◌, refl, sym, inl, inr, none, some, List, [],
  ◌∷◌, Bytes, codes, normalize, map, All, arith, join, lookup,
}
use edged.Base.Int.{pos}
use edged.Config.Samples.{sample_provider, sample_config}
use edged.Acme.Samples.{office, shelf}
use edged.Acme.DnsRouter
use edged.Acme.DnsRouter.{Challenge}
use edged.Acme.DnsRouter.Route.{Entry, Routed, config_of, provider_of, route-Routed}
use edged.Acme.DnsRouter.Timing.{Suffices, Positive, timeouts-Suffices}
use edged.Acme.Manager
use edged.Acme.Manager.{AcmeLib, Resource, ManagerError}
use edged.Acme.Manager.Serving.{Served, get_certificate-Served}
use edged.Acme.Manager.Disk
use edged.Acme.Manager.Disk.{DiskLib, listed, restore_star}
use edged.Acme.Manager.Loading.{Restored, load_certificates_from_disk-Restored}
use edged.Acme.Manager.Storing.{IsPaired}
use edged.Acme.Manager.Renewing.{Received, ticked, ctx_done, renewal_loop}
use edged.Acme.Manager.Interval.{
  bits, signed, in_hours, renewal_interval, Ticks, start_renewal_daemon, Keeps,
  start_renewal_daemon-Keeps,
}
use edged.Config.Domains.Members.{Any}
use mathlib.Core.Path.{subst}
use edged.Acme.Manager.Ensuring.{
  Ensured, Answered, IsNamed, ensure_domains-Ensured, ensure_domains-Answered,
}

-- Providers are numbers, and the world the tokens that are published.
abbrev bench : Challenge
bench = record {
  Provider = ℕ;
  World = List Bytes;
  Error = Bytes;
  present = λ p domain token key_auth w. (none, token ∷ w);
  clean_up = λ p domain token key_auth w. (none, []);
  settings = λ p. some (pos p, pos 2);
  default_propagation_timeout = pos 60;
  default_polling_interval = pos 2;
}

abbrev pairs : List (Entry ℕ)
pairs =
    (sample_provider [] (codes "arvancloud"), 120)
    ∷ (sample_provider (codes "*.example.org" ∷ []) (codes "cloudflare"), 300)
    ∷ []

abbrev bench_router : DnsRouter.RoutedDnsProvider bench
bench_router = record { entries = map config_of pairs; providers = map provider_of pairs }

abbrev empty_manager : Manager.Manager office
empty_manager = record { cfg = sample_config.acme; certs = []; cert_meta = [] }

abbrev wanted : List Bytes
wanted = codes "*.Example.org" ∷ codes "example.org " ∷ []

empty-IsPaired : IsPaired office empty_manager
unfolding lookup
empty-IsPaired name exp h = absurd (cc h)

route-Routed_example :
    Routed pairs
      (normalize (codes "WWW.example.org"))
      (DnsRouter.route bench bench_router (codes "WWW.example.org"))
route-Routed_example = route-Routed bench pairs (codes "WWW.example.org")

timeouts-Suffices_example :
    Suffices bench
      (DnsRouter.timeouts bench bench_router).0
      (DnsRouter.timeouts bench bench_router).1
      (120 ∷ 300 ∷ [])
    × Positive (DnsRouter.timeouts bench bench_router).0
    × Positive (DnsRouter.timeouts bench bench_router).1
timeouts-Suffices_example = timeouts-Suffices bench bench_router (omega arith) (omega arith)

-- Two certificates, the second for the names of a zone.
abbrev two_certs : Manager.Manager office
two_certs = record empty_manager {
  certs = (codes "example.org", codes "first") ∷ (codes "*.example.org", codes "second") ∷ [];
}

get_certificate-Served_example :
    Served office two_certs.certs
      (normalize (codes " "))
      (Manager.get_certificate office two_certs (codes " "))
get_certificate-Served_example = get_certificate-Served office two_certs (codes " ")

three_handshakes :
    (Manager.get_certificate office two_certs (codes " ") ≡ some (codes "first"))
    × (Manager.get_certificate office two_certs (codes "A.example.org") ≡ some (codes "second"))
    × (Manager.get_certificate office two_certs (codes "example.net") ≡ none)
unfolding Manager.get_certificate Manager.first_cert Manager.wildcard_name normalize lookup split
    join edged.Base.equal
three_handshakes = (refl, refl, refl)

ensure_domains-Ensured_example :
    Ensured office wanted empty_manager (Manager.ensure_domains office wanted empty_manager 3)
ensure_domains-Ensured_example = ensure_domains-Ensured office wanted empty_manager 3 empty-IsPaired

wanted-IsNamed : All (IsNamed office) wanted
unfolding normalize
wanted-IsNamed = (λ e. cc e, (λ e. cc e, tt))

no_error : (Manager.ensure_domains office wanted empty_manager 3).0 ≡ none
unfolding Manager.ensure_domains Manager.missing_or_expiring Manager.is_due lookup
    Manager.obtain_certificate Manager.needs_obtain Manager.save
no_error = refl

ensure_domains-Answered_example :
    All (Answered office (Manager.ensure_domains office wanted empty_manager 3).1.0) wanted
ensure_domains-Answered_example =
    ensure_domains-Answered office wanted empty_manager 3 empty-IsPaired wanted-IsNamed no_error

restored_name :
    Disk.names_of office shelf (codes "_wildcard.example.org") [] ≡ codes "*.example.org" ∷ []
unfolding Disk.names_of restore_star has_prefix
restored_name = refl

load_certificates_from_disk-Restored_example :
    Restored office shelf
      (codes "./store/certs")
      3
      empty_manager
      (listed (codes "_wildcard.example.org.crt" ∷ codes "notes.txt" ∷ []))
      (Disk.load_certificates_from_disk office shelf 3 empty_manager)
unfolding join
load_certificates_from_disk-Restored_example =
    load_certificates_from_disk-Restored office shelf 3 empty_manager empty-IsPaired

-- A tick on day 3, and the end of the context.
abbrev received : List (Received office)
received = ticked 3 ∷ ctx_done ∷ []

renewed : (renewal_loop office wanted received empty_manager).1 ≡ none ∷ []
unfolding renewal_loop Manager.ensure_domains Manager.missing_or_expiring Manager.is_due lookup
    Manager.obtain_certificate Manager.needs_obtain Manager.save
renewed = refl

start_renewal_daemon-Keeps_example :
    Ensures
      (Keeps office wanted)
      (start_renewal_daemon office (pos 86400000000000) wanted received empty_manager)
    × Ticks (pos 86400000000000) (pos 24) (renewal_interval (pos 86400000000000) (pos 24))
start_renewal_daemon-Keeps_example =
    start_renewal_daemon-Keeps office (pos 86400000000000) wanted received empty_manager refl
      empty-IsPaired (inr (subst (Any (λ e. e ≡ none)) (sym renewed) (inl refl)))

-- The product of 5124096 hours wraps around to 25 minutes.
wrapped_interval : renewal_interval (pos 86400000000000) (pos 5124096) ≡ pos 1526290448384
unfolding renewal_interval in_hours bits signed
wrapped_interval = refl
