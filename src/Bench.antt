-- ===== src/Bench.antt =====
-- internal/bench: benchmark suites, runs and their results.
pub mod Config
pub mod Suites
pub mod Eval
pub mod Normal
pub mod Run
pub mod Cluster
pub mod Keeps
pub mod Polling
pub mod Staging
pub mod Output
pub mod Watch
pub mod Stopping
pub mod Configs
pub mod Execute
pub mod Outage
pub mod Reading
pub mod Unstopped
pub mod Covered
pub mod Running
pub mod Leads
pub mod Told
pub mod Restores
pub mod Relaunch
pub mod Outcomes
pub mod Endings
pub mod Control
pub mod Session
pub mod Sole
pub mod Parts
pub mod Clock
pub mod Deadlines
pub mod Table
pub mod Grid
pub mod Cells
pub mod Best
pub mod Winner
pub mod Disk
pub mod Store
pub mod Stored
pub mod Datasets
pub mod Adapter
pub mod Known
pub mod Interrupted
pub mod Recovered
pub mod Opening
