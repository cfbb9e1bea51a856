-- ===== src/Tests.antt =====
-- Concrete clusters, and runs of the models on them.
mod Clusters
mod EndToEnd
mod Helpers
mod Gauges
mod Orders
mod Sites
pub mod Sessions
mod Published
mod Start
pub mod Lifecycle
pub mod World
mod Targets
mod Threads
mod Zone
mod Objects
mod Runs
mod Settings
