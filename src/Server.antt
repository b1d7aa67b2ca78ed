-- ===== src/Server.antt =====
-- src/server, src/auth.rs, src/gc.rs and src/cluster_server.rs: the cache server. `Storage` is where its
-- blobs are, `Metadata` its SQLite database, `Handlers` what it answers, `Auth` its tokens and limits,
-- `Gc` its collector, and `Cluster` the server of a cluster.
pub mod Storage
pub mod Metadata
pub mod Postgres
pub mod Handlers
pub mod Auth
pub mod Gc
pub mod Cluster
