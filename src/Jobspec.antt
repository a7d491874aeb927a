-- ===== src/Jobspec.antt =====
-- internal/jobspec: deployment parameters and the Nomad jobs built from them.
pub mod Params
pub mod Validity
pub mod Job
pub mod Common
pub mod Runtimes
pub mod Arguments
pub mod Built
pub mod BenchJobs
pub mod Scripts
pub mod Helpers
