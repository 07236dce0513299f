-- ===== src/Proxy.antt =====
-- proxy/: the choice of a route by host name, by SNI and by path, and what is done with a request.
pub mod Hosts
pub mod Router
pub mod ClientIp
pub mod Director
pub mod Copying
pub mod Passthrough
pub mod Gateway
pub mod Setup
pub mod Server
mod Tests
