-- ===== src/Cache.antt =====
-- src/cache and src/remote_router: artifacts in chunks, the cache directory, the remote cache's interface,
-- the two-level cache over them, the cluster, the router, the client of the cache server, and manifests.
pub mod Chunks
pub mod Local
pub mod Remote
pub mod Hybrid
pub mod Cluster
pub mod Router
pub mod Http
pub mod Manifest
