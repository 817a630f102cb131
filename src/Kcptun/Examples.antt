-- ===== src/Kcptun/Examples.antt =====
-- The theorems on the kcptun programs at concrete inputs.
mod Ciphers
mod Pools
mod Settings
mod Tunnels
mod Snmps
mod Endings
mod Starting
mod Typed
mod Agreements
mod Lives
