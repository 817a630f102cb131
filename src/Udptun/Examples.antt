-- ===== src/Udptun/Examples.antt =====
-- The theorems on udptun at concrete inputs.
mod Data
mod Packets
mod Flows
mod Links
mod Sockets
mod Limits
mod Programs
mod Together
mod Talk
mod Crossing
mod Typed
