-- ===== src/Cmd.antt =====
-- cmd/main.go: `runServer`, which puts the parts together.
pub mod Booting
mod Tests
use edged.Base.{
  Bool, true, false, not, Option, none, some, List, [], ◌∷◌, ◌++◌, ◌⊎◌, inl, inr, if◌then◌else◌,
  is_empty, map, Bytes,
}
use edged.Config.{AcmeConfig, ListenerConfig, Config}
use edged.Config.Domains.{acme_domains}
use edged.Config.Loading.{LoadLib, LoadError, load}
use edged.Acme.Options.{with_config}
use edged.Acme.Creating.{CreateLib, CreateError, Assembled, new_manager}
use edged.Acme.Manager
use edged.Acme.Manager.{AcmeLib, ManagerError}
use edged.Acme.Manager.Storing.{Memory}
use edged.Acme.Manager.Disk
use edged.Acme.Manager.Disk.{DiskLib}
use edged.Proxy.Setup.{UrlLib}
use edged.Proxy.Server.{
  HttpServer, Server, StartEnd, started, fatal, failed, Answers, new_server, start, Task, stop,
}

-- What stands around the run: the libraries, the disk and the world when the manager is made, what the
-- network answers, and how the shutdowns end.
pub record Surroundings : Type 1 where
  pub load_lib : LoadLib
  pub url_lib : UrlLib
  pub create_lib : CreateLib
  pub acme_lib : AcmeLib
  pub disk : DiskLib acme_lib
  pub world : acme_lib.World
  pub answers : ListenerConfig → Answers
  pub shutdown : HttpServer → Option Bytes
  -- the shutdowns of a server's listeners in the order in which they return
  pub ended : Server → List Task

pub data RunEnd : Type 0 where
  fatal_config : LoadError → RunEnd
  fatal_manager : CreateError → RunEnd
  config_valid clean : RunEnd
  fatal_start : StartEnd → RunEnd
  stop_failed : Bytes → RunEnd

pub data RunStep : Type 0 where
  manager_initialized daemon_started : List Bytes → RunStep
  domains_ensured : Option ManagerError → RunStep
  listeners_started : Server → RunStep
  signal_received background_canceled : RunStep
  listeners_stopped : Server → RunStep

module _ (around : Surroundings) where
  open around use {load_lib, url_lib, create_lib, acme_lib, disk, world, answers, shutdown, ended}

  abbrev pub with_answers : List ListenerConfig → List (ListenerConfig × Answers)
  with_answers [] = []
  with_answers (l ∷ listeners) = (l, answers l) ∷ with_answers listeners

  abbrev pub behind : List RunStep → RunEnd × List RunStep → RunEnd × List RunStep
  behind steps (end, later) = (end, steps ++ later)

  -- From the signal on.
  unfoldable pub shut_down : Server → RunEnd × List RunStep
  shut_down s = elim (stop shutdown (ended s)) [
    | none ↦ (clean, signal_received ∷ background_canceled ∷ listeners_stopped s ∷ [])
    | some e ↦ (stop_failed e, signal_received ∷ background_canceled ∷ listeners_stopped s ∷ [])
  ]

  -- From the creation of the server on.
  unfoldable pub serve_listeners : Bool → Config → RunEnd × List RunStep
  serve_listeners has_acme_mgr cfg =
      let (end, s) = start url_lib (with_answers cfg.listeners) (new_server has_acme_mgr) in
      elim end [
        | started ↦ behind (listeners_started s ∷ []) (shut_down s)
        | fatal ↦ (fatal_start fatal, [])
        | failed e ↦ (fatal_start (failed e), [])
      ]

  -- The certificates of a manager that has been made.
  unfoldable pub certificates_of : Assembled create_lib → Memory acme_lib
  certificates_of m =
      let unloaded : Memory acme_lib = record { cfg = m.cfg; certs = []; cert_meta = [] } in
      if m.loads_existing
      then (Disk.load_certificates_from_disk acme_lib disk world unloaded).1
      else unloaded

  -- The calls with the manager, before the listeners start.
  abbrev pub manager_steps : List Bytes → Assembled create_lib → List RunStep
  manager_steps domains m =
      manager_initialized domains
      ∷ domains_ensured (Manager.ensure_domains acme_lib domains (certificates_of m) world).0
      ∷ daemon_started domains
      ∷ []

  -- From the loaded configuration on.
  unfoldable pub boot : Config → RunEnd × List RunStep
  boot cfg =
      let domains = acme_domains cfg in
      if is_empty domains
      then serve_listeners false cfg
      else elim (new_manager create_lib (some (with_config cfg.acme) ∷ [])) [
        | inl e ↦ (fatal_manager e, [])
        | inr m ↦ behind (manager_steps domains m) (serve_listeners true cfg)
      ]

  unfoldable pub run_server : Bool → RunEnd × List RunStep
  run_server test_config = elim (load load_lib) [
    | inl e ↦ (fatal_config e, [])
    | inr cfg ↦ if test_config then (config_valid, []) else boot cfg
  ]
