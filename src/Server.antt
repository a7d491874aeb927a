-- ===== src/Server.antt =====
-- internal/server.
pub mod Pages
pub mod Units
pub mod Api
pub mod Forms
pub mod Removal
pub mod Protection
pub mod Replies
pub mod Deployments
pub mod Conflicts
pub mod DeployForm
pub mod Auth
pub mod Downloads
pub mod Models
pub mod Selection
pub mod Suites
pub mod RunForm
pub mod Runs
pub mod Busy
pub mod Steps
pub mod Defaults
pub mod Router
pub mod Gpus
