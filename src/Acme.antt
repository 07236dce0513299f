-- ===== src/Acme.antt =====
-- acme/: the manager, its options and providers, the DNS-01 provider of each domain, and the certificates in memory.
pub mod DnsRouter
pub mod Manager
pub mod Options
pub mod Provisioning
pub mod Creating
pub mod ArvanCloud
pub mod Samples
mod Tests
