-- ===== src/Tls.antt =====
-- crypto/tls: the two readers of a TLS ClientHello, and the format that they read.
pub mod Wire
pub mod Sni
pub mod Hello
pub mod Samples
mod Tests
