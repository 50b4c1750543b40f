-- ===== src/Tests.antt =====
-- The theorems at concrete inputs.
mod Secrets
mod Flushes
pub mod Data
pub mod RealmData
mod Flows
mod Controllers
mod Realms
mod People
mod Clients
