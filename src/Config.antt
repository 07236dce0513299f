-- ===== src/Config.antt =====
-- config/: the configuration, its defaults and validation, and the choice of a DNS provider.
mod Types
pub mod Samples
pub mod DnsMatch
pub mod Domains
pub mod Defaults
pub mod Validation
pub mod Loading
mod Tests
pub use Types.*
