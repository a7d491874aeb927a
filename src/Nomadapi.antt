-- ===== src/Nomadapi.antt =====
-- internal/nomadapi: the application's view of the Nomad API.
pub mod Deployment
pub mod Api
pub mod Allocs
pub mod Listing
pub mod Managed
pub mod Logs
pub mod Dispatch
pub mod Latest
pub mod Waiting
pub mod Lines
pub mod Plain
pub mod Stats
pub mod Health
