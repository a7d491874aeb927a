-- ===== src/Samples.antt =====
-- Concrete inputs, runs of the models on them, and instances of the theorems.
pub mod Data
pub mod Jobs
pub mod Ports
pub mod Benchmarks
pub mod Startup
pub mod Pieces
pub mod Cluster
pub mod Stores
pub mod Sessions
mod Requests
mod Caches
mod Tables
