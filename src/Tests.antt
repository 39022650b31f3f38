-- ===== src/Tests.antt =====
-- The theorems at concrete inputs.
mod Ciphers
mod Wire
mod Sessions
mod Worlds
mod Key
mod Auth
mod Ticks
mod Stores
mod Servers
mod Admins
