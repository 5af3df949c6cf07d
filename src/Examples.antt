-- ===== src/Examples.antt =====
-- Concrete keys and the properties at concrete inputs.
pub mod Codec
mod Packets
pub mod Codes
mod Serving
mod Files
mod Bootstrap
mod Flows
mod Logins
mod Relays
mod Admission
mod Command
mod Client
