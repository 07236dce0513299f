-- ===== src/Lib.antt =====
-- Verification of edged, a reverse proxy that terminates or passes through TLS and acquires its
-- certificates by ACME.
--
-- A listener accepts connections. One with passthrough routes reads the first bytes of each
-- connection, extracts the server name from the ClientHello (crypto/tls), chooses a route by it
-- (proxy/tcp_proxy.go) and either pipes the connection to the route's upstream or terminates TLS
-- with a certificate of the manager (acme/manager.go). A request is then given to the route with the
-- longest matching prefix and rewritten for its upstream (proxy/reverse_proxy.go). The configuration
-- (config/) is completed with defaults and validated before anything starts; its list of DNS
-- providers decides who answers the DNS-01 challenge of a domain (acme/dns_router.go).
--
-- The files, and the code that they are about:
--   Base          what the modules share: lists, byte strings with the reads of Go and their panics,
--                 texts, maps and integers with a sign
--   Tls/Wire      the format of a ClientHello, as the RFCs have it; no code of the repository
--   Tls/Sni       crypto/tls/extract_sni.go: ExtractSNI
--   Tls/Hello     crypto/tls/hello.go: ClientHello.Unmarshal. Receiver has the struct and the monad of
--                 its methods, Extensions the loops
--   Glob          path.Match of Go's standard library, which config/dns_match.go calls
--   Config/Types  config/config.go: the structs
--   Config/DnsMatch    config/dns_match.go, and SelectDNSProvider of config/config.go
--   Config/Domains     config/config.go: acmeDomains
--   Config/Defaults    config/config.go: setDefaults
--   Config/Validation  config/config.go: the struct-level validations
--   Config/Loading     config/config.go: Load, validate, formatFieldError
--   Proxy/Hosts    proxy/tcp_proxy.go: matchHostShared, matchRouteBySNI
--   Proxy/Router   proxy/reverse_proxy.go: Router.ServeHTTP
--   Proxy/ClientIp proxy/reverse_proxy.go: resolveClientIP and the cache of parsed networks
--   Proxy/Director proxy/reverse_proxy.go: the function that createDirector returns
--   Proxy/Copying  proxy/tcp_proxy.go: copyContext
--   Proxy/Passthrough  proxy/tcp_proxy.go: handleConn, and in Upstream dialUpstream and
--                  sendProxyProtocolHeader; the calls that a connection makes are a list of events.
--                  Accepting has the accept loop and Shutdown as steps
--   Proxy/Gateway  proxy/reverse_proxy.go: createErrorHandler, and a request from ServeHTTP to its answer
--   Proxy/Setup    proxy/reverse_proxy.go: NewProxyRouter, upstreamTLSConfig
--   Proxy/Server   proxy/listener.go: Server
--   Acme/DnsRouter acme/dns_router.go: routedDNSProvider
--   Acme/Manager   acme/manager.go: GetCertificate, EnsureDomains, obtainCertificate,
--                  in Disk loadCertificatesFromDisk, in Renewing and Interval the renewal daemon
--   Acme/Options   acme/options.go: the options
--   Acme/Provisioning  acme/options.go: configureDNS01Provider and what it calls
--   Acme/Creating  acme/options.go: NewManager; acme/user.go: loadUser; acme/manager.go:
--                  loadOrCreatePrivateKey
--   Acme/ArvanCloud    acme/arvancloud_fix.go: Present and the requests that it sends
--   Cmd            cmd/main.go: runServer, which composes Config/Loading, Acme/Creating, Acme/Manager and
--                  Proxy/Server
-- Functions and fields keep their names, in snake case; Tests and Samples hold concrete runs.
--
-- How the code is rendered:
--   - A read out of bounds is `panic`, an error that a method returns is a value beside the state,
--     and `nil` or a missing key is `none`. Logging and metrics are left out.
--   - Byte strings are lists of numbers, and texts are ASCII; lengths are far below 2 ^ 63, so an int
--     does not wrap. A slice is held to the length of what it is cut from.
--   - The loops over ClientHello bytes run on fuel, the length of the buffer and one, which is enough
--     since each round moves on by at least three bytes; running out of it is a result of its own.
--     path.Match reads a pattern on fuel, its length. The loop of copyContext is watched for a list
--     of rounds, each with what the connections and the context do in it.
--   - A map is an association list, whose order stands for one order of iteration.
--   - Locks are left out: each method stands for one that runs alone.
--   - The two copies of a passthrough connection stand one after the other: neither reads what the
--     other writes. Where one of them runs on behind the rounds that are watched, handleConn has not
--     returned and nothing is closed. Goroutines of the server are a list; Stop has the order in which its shutdowns
--     return as an argument.
--   - Code of other packages is a parameter: package net (NetLib, DialLib), URLs and SOCKS5 dialers
--     (UrlLib), lego's providers (Challenge), the certificate authority, the disk, the clock and
--     package crypto (AcmeLib, DiskLib, CreateLib), the constructors of DNS providers (DnsLib), the
--     HTTP client of ArvanCloud (ArvanLib), and the readers of configurations, their default values and
--     the rules of the struct tags (LoadLib), and the rest of httputil.ReverseProxy with the
--     transports (GatewayLib).
--
-- Not modelled: net/http and its servers, a shutdown before the listener listens, the writing of accounts
-- (acme/user.go), flags (cmd/, main.go), and log messages. A request's
-- RawPath is taken to be empty.
pub mod Base
pub mod Tls
pub mod Glob
pub mod Config
pub mod Proxy
pub mod Acme
pub mod Cmd
