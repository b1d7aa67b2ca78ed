-- ===== src/Tests.antt =====
-- Concrete inputs, runs on them, and the theorems at inputs that meet their hypotheses.
mod Samples
mod Graphs
mod Builds
mod Rebuilds
mod Caches
mod Clusters
mod Regions
mod Images
mod Parsing
mod Workers
mod Storage
mod Servers
mod Accounts
mod Audits
mod Scalers
mod Peers
mod Contexts
mod Databases
