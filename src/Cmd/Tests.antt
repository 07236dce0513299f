-- ===== src/Cmd/Tests.antt =====
-- A run with the sample configuration.
use edged.Base.{◌≡◌, ◌≢◌, ◌↔◌, inr, true, false, none, some, [], map, Bytes, codes}
use edged.Acme.Samples.{fresh, office, shelf}
use edged.Config.{Config}
use edged.Config.Samples.{sample_config}
use edged.Config.Defaults.{set_defaults, listener_defaults}
use edged.Config.Loading.{LoadLib, load}
use edged.Config.Loading.Accepted.{IsAccepted, Says, load_iff}
use edged.Proxy.Server.{tasks, failed, no_acme_manager}
use edged.Cmd.{Surroundings, run_server, fatal_start}
use edged.Cmd.Booting.{run_server-has_manager}

-- The map is decoded to the sample configuration, and the tags ask for nothing.
abbrev files : LoadLib
files = record {
  CfgMap = Bytes;
  read_and_merge_config = some (codes "acme:");
  read_file = none;
  unmarshal = λ text. none;
  zero_config = record sample_config { listeners = [] };
  decode = λ cfg_map c. some sample_config;
  apply_defaults = some;
  tag_errors = λ c. [];
  reported =
      λ i v. record { namespace = codes "Config"; tag = codes "required"; param = []; value = [] };
}

abbrev around : Surroundings
around = record {
  load_lib = files;
  url_lib = record {
    parse_url = λ s. some (record { scheme = []; host = s; path = [] });
    has_dialer = λ url. true;
  };
  create_lib = fresh;
  acme_lib = office;
  disk = shelf;
  world = 3;
  answers = λ l. record { listens = true; loads_key_pair = true };
  shutdown = λ srv. none;
  ended = tasks;
}

abbrev completed_config : Config
completed_config = record sample_config {
  listeners =
      map (listener_defaults sample_config.default_upstream_socks5_proxy) sample_config.listeners;
}

load_iff_example : (load files ≡ inr completed_config) ↔ (
    (raw : Config) × Says files raw
    × (set_defaults some raw ≡ some completed_config)
    × IsAccepted files completed_config)
load_iff_example = load_iff files completed_config

run_server-has_manager_example : (run_server around false).0 ≢ fatal_start (failed no_acme_manager)
run_server-has_manager_example = run_server-has_manager around false
