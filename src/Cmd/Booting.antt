-- ===== src/Cmd/Booting.antt =====
-- The configuration that is accepted is one that the listeners can be started with.
use edged.Base.{
  ◌≡◌, ◌≢◌, refl, sym, ◌∙◌, ◌⊎◌, inl, inr, Bool, true, false, List, [], ◌∷◌, if◌then◌else◌, some,
  is_empty, Bytes, All, normalize, on_branches, on_option,
}
use mathlib.Core.Bool.{false≢true}
use edged.Config.{ListenerConfig, Config}
use edged.Config.Domains.{acme_domains, contains}
use edged.Config.Domains.Members.{Any, AcquiresCertificates, Served, acme_domains_iff}
use edged.Config.Validation.{listener_violations}
use edged.Config.Validation.Listener.{listener_violations_iff}
use edged.Acme.Options.{with_config}
use edged.Acme.Creating.{CreateError, Assembled, new_manager}
use edged.Config.Loading.{LoadError, load}
use edged.Config.Loading.Accepted.{IsAccepted, load_iff}
use edged.Proxy.Setup.{UrlLib}
use edged.Proxy.Server.{
  Server, no_acme_manager, StartEnd, started, fatal, failed, Answers, new_server, start, Goroutine,
  stop,
}
use edged.Proxy.Server.Starting.{
  Blocked, no_router, uncertified, no_https_port, no_http_port, without_manager, without_pair,
  Starts, all_started, one_started, stopped,
}
use edged.Proxy.Server.Registered.{start-Starts}
use edged.Cmd.{
  Surroundings, RunEnd, RunStep, listeners_started, fatal_manager, manager_steps, fatal_config,
  config_valid, fatal_start, with_answers, behind, shut_down, serve_listeners, boot, run_server,
}

abbrev Lacking : StartEnd
Lacking = failed no_acme_manager

module _ (lib : UrlLib) where
  Blocked-Acquires :
      {has : Bool} {l : ListenerConfig} {a : Answers} {end : StartEnd}
      → Blocked lib has l a end
      → end ≡ failed no_acme_manager
      → AcquiresCertificates l × (has ≡ false)
  Blocked-Acquires (no_router err f e) is = absurd (cc is)
  Blocked-Acquires (uncertified e (without_manager on acme lacks)) is = ((e, (on, acme)), lacks)
  Blocked-Acquires (uncertified e (without_pair on files fails)) is = absurd (cc is)
  Blocked-Acquires (no_https_port e pp down) is = absurd (cc is)
  Blocked-Acquires (no_http_port n pp down) is = absurd (cc is)

  abbrev Acquiring : List (ListenerConfig × Answers) → Type 0
  Acquiring = Any (λ ((l, a) : ListenerConfig × Answers). AcquiresCertificates l)

  Starts-Acquiring :
      {has : Bool} {listeners : List (ListenerConfig × Answers)} {end : StartEnd}
      {gs : List Goroutine}
      → Starts lib has listeners end gs
      → end ≡ failed no_acme_manager
      → Acquiring listeners × (has ≡ false)
  Starts-Acquiring all_started is = absurd (cc is)
  Starts-Acquiring (one_started served rest) is = let w = Starts-Acquiring rest is in (inr w.0, w.1)
  Starts-Acquiring (stopped b) is = let w = Blocked-Acquires b is in (inl w.0, w.1)

some_domain :
    (domains : List Bytes)
    → ¬ (domains ≡ [])
    → (d : Bytes) × Any (λ (x : Bytes). normalize x ≡ d) domains
some_domain [] n = absurd (n refl)
some_domain (d ∷ domains) n = (normalize d, inl refl)

module _ (around : Surroundings) where
  Acquiring-Served :
      (listeners : List ListenerConfig)
      → All (λ l. listener_violations l ≡ []) listeners
      → Acquiring around.url_lib (with_answers around listeners)
      → (d : Bytes) × Served d listeners
  Acquiring-Served [] valid w = absurd w
  Acquiring-Served (l ∷ listeners) valid (inl own) =
      let (d, any) =
        some_domain l.tls.domains (((listener_violations_iff l).0 valid.0).0 own.0 own.1.1) in
      (d, inl (own, any))
  Acquiring-Served (l ∷ listeners) valid (inr w) =
      let (d, served) = Acquiring-Served listeners valid.1 w in (d, inr served)

  filled_domains :
      (c : Config) (d : Bytes) → Served d c.listeners → is_empty (acme_domains c) ≡ false
  filled_domains c d served = filled (acme_domains c) ((acme_domains_iff c d).1 served)
    where
      filled : (ds : List Bytes) → contains d ds ≡ true → is_empty ds ≡ false
      filled [] h = absurd (unfold contains in false≢true h)
      filled (x ∷ ds) h = refl

  start-has_manager :
      (has : Bool) (c : Config)
      → IsAccepted around.load_lib c
      → (is_empty (acme_domains c) ≡ false → has ≡ true)
      → (start around.url_lib (with_answers around c.listeners) (new_server has)).0
        ≢ failed no_acme_manager
  unfolding new_server
  start-has_manager has c accepted given is =
      let (gs, starts, grows) =
        start-Starts around.url_lib (with_answers around c.listeners) (new_server has) in
      let (acquiring, lacks) = Starts-Acquiring around.url_lib starts is in
      let (d, served) = Acquiring-Served c.listeners accepted.by_listeners acquiring in
      false≢true (sym lacks ∙ given (filled_domains c d served))

  abbrev Good : RunEnd × List RunStep → Type 0
  Good r = r.0 ≢ fatal_start (failed no_acme_manager)

  behind-Good :
      (steps : List RunStep) (r : RunEnd × List RunStep) → Good r → Good (behind around steps r)
  behind-Good steps (end, later) g = g

  shut_down-Good : (s : Server) → Good (shut_down around s)
  unfolding shut_down
  shut_down-Good s =
      on_option Good (stop around.shutdown (around.ended s)) _ _ (λ e h. cc) (λ m e h. cc)

  serve_listeners-Good :
      (has : Bool) (c : Config)
      → IsAccepted around.load_lib c
      → (is_empty (acme_domains c) ≡ false → has ≡ true)
      → Good (serve_listeners around has c)
  unfolding serve_listeners
  serve_listeners-Good has c accepted given =
      from (start around.url_lib (with_answers around c.listeners) (new_server has))
        (start-has_manager has c accepted given)
    where
      from :
          (r : StartEnd × Server)
          → r.0 ≢ failed no_acme_manager
          → Good (elim r.0 [
            | started ↦ behind around (listeners_started r.1 ∷ []) (shut_down around r.1)
            | fatal ↦ (fatal_start fatal, [])
            | failed e ↦ (fatal_start (failed e), [])
          ])
      from (started, s) n =
          behind-Good (listeners_started s ∷ []) (shut_down around s) (shut_down-Good s)
      from (fatal, s) n = λ h. cc
      from (failed e, s) n = λ h. n cc

  -- Whatever stands around the run, it never ends because a listener asks for ACME certificates
  -- without an ACME manager: for each configuration that `load` accepts, the manager is made before the
  -- listeners start if any of them needs it.
  pub run_server-has_manager :
      (test_config : Bool)
      → (run_server around test_config).0 ≢ fatal_start (failed no_acme_manager)
  unfolding run_server boot
  run_server-has_manager test_config = from (load around.load_lib) refl
    where
      made :
          (cfg : Config)
          → IsAccepted around.load_lib cfg
          → (r : CreateError ⊎ Assembled around.create_lib)
          → Good (elim r [
            | inl e ↦ (fatal_manager e, [])
            | inr m ↦
                behind around
                  (manager_steps around (acme_domains cfg) m)
                  (serve_listeners around true cfg)
          ])
      made cfg accepted (inl e) = λ h. cc
      made cfg accepted (inr m) =
          behind-Good (manager_steps around (acme_domains cfg) m) (serve_listeners around true cfg)
            (serve_listeners-Good true cfg accepted (λ e. refl))

      from :
          (l : LoadError ⊎ Config)
          → load around.load_lib ≡ l
          → Good (elim l [
            | inl e ↦ (fatal_config e, [])
            | inr cfg ↦ if test_config then (config_valid, []) else boot around cfg
          ])
      from (inl e) is = λ h. cc
      from (inr cfg) is =
          let (raw, parsed, defaults, accepted) = (load_iff around.load_lib cfg).0 is in
          on_branches Good test_config _ _ (λ t h. cc)
            λ t.
              on_branches Good (is_empty (acme_domains cfg)) _ _
                (λ empty.
                  serve_listeners-Good false cfg accepted
                    (λ e. absurd (false≢true (sym e ∙ empty))))
                λ given.
                  made cfg accepted
                    (new_manager around.create_lib (some (with_config cfg.acme) ∷ []))
