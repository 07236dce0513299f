-- ===== src/Acme/Samples.antt =====
-- Concrete libraries for the manager: DNS providers, certificates, and a disk.
use edged.Base.{true, none, some, [], ◌∷◌, ℕ, Bytes, codes, join}
use edged.Base.Int.{ℤ, pos, ltb_ℤ}
use edged.Config.Samples.{sample_config}
use edged.Acme.Provisioning.{DnsLib, Timings}
use edged.Acme.Creating.{CreateLib}
use edged.Acme.Manager.{AcmeLib}
use edged.Acme.Manager.Disk.{DiskLib, listed}

abbrev timings : Timings
timings = record { propagation_timeout = pos 120; polling_interval = pos 2; ttl = pos 600 }

-- A transport is a number, and a provider its key.
abbrev pub lego : DnsLib
lego = record {
  Transport = ℕ;
  ArvanCloud = Bytes;
  Cloudflare = Bytes;
  arvancloud_defaults = timings;
  cloudflare_defaults = timings;
  new_arvancloud = λ key t client. some key;
  new_cloudflare = λ auth t client. some [];
  sets_provider = true;
}

-- No file is there, and everything else succeeds.
abbrev pub fresh : CreateLib
fresh = record {
  dns = lego;
  HttpClient = ℕ;
  Key = Bytes;
  Registration = Bytes;
  zero_config = record sample_config.acme { storage_path = []; dns_providers = [] };
  join_paths = λ parts. join b'/' parts;
  mkdir_all = λ path. true;
  read_file = λ path. none;
  parse_url = λ s. none;
  http_transport = λ insecure proxy. 7;
  decode_pem = λ text. none;
  parse_ec = λ block. none;
  parse_pkcs1 = λ block. none;
  parse_pkcs8 = λ block. none;
  generate_key = some (codes "key");
  marshal_key = some;
  writes_pem = λ path der. true;
  unmarshal_user = λ text. none;
  makes_client = λ cfg key_type client. true;
  register = λ agreed. some (codes "account/1");
}

-- Certificates are their PEM texts, and the world is the day; every certificate lasts to day 90.
abbrev pub office : AcmeLib
office = record {
  Cert = Bytes;
  Time = ℤ;
  World = ℕ;
  lock_obtain = λ w. w;
  obtain = λ domains w.
      (some (record { certificate = join b',' domains; private_key = codes "key" }), w);
  write_file = λ path text w. (true, w);
  join_paths = join b'/';
  x509_key_pair = λ certificate private_key. some certificate;
  not_after = λ cert. some (pos 90);
  in_three_months = λ w. pos 90;
  expires_within = λ exp days w. ltb_ℤ exp (pos 60);
}

abbrev pub shelf : DiskLib office
shelf = record {
  read_dir = λ dir w. listed (codes "_wildcard.example.org.crt" ∷ codes "notes.txt" ∷ []);
  exists = λ path w. true;
  load_x509_key_pair = λ crt_path key_path w. some crt_path;
  dns_names = λ cert. [];
  zero_time = pos 0;
}
