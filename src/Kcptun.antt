-- ===== src/Kcptun.antt =====
-- The two kcptun programs, client and server: packages client and server.
pub mod Crypt
pub mod Config
pub mod CompStream
pub mod Agreement
pub mod Connect
pub mod Serving
pub mod Sessions
pub mod Snmp
pub mod Signals
pub mod Tunnel
mod Examples
