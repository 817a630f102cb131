-- ===== src/Udptun.antt =====
-- Package udptun: the relay of datagrams between a client and a server.
pub mod Codec
pub mod Cipher
pub mod Table
pub mod Client
pub mod Supervisor
pub mod FlowKey
pub mod Server
pub mod Bounds
pub mod Exchange
pub mod Start
pub mod EndToEnd
pub mod OverTcp
pub mod KeepAlive
pub mod Conversation
pub mod Program
mod Examples
