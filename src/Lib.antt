-- ===== src/Lib.antt =====
-- MemoBuild, an incremental and distributed build tool for Dockerfiles.
--
-- A Dockerfile is parsed into instructions (src/docker/parser.rs), a graph is built with a node for
-- each (src/docker/dag.rs), changes are found and propagated and the nodes get their cache keys
-- (src/core.rs), and the executor walks the levels of the graph (src/graph.rs), takes each node from
-- the cache or builds it, and counts what it did (src/executor.rs). The cache is a directory in front
-- of a shared remote cache (src/cache/local.rs, src/cache/hybrid.rs), which stores artifacts as
-- content-addressed chunks (src/cache/utils.rs). The remote cache may be spread over a cluster
-- (src/cache/cluster.rs) or over regions (src/remote_router/router.rs). src/main.rs composes these steps.
--
-- A cache server (src/server/mod.rs) gives the remote cache over HTTP: it keeps blobs in a storage
-- (src/storage/local.rs) and what it knows of them in a database (src/server/metadata.rs), and a
-- collector deletes what is old (src/gc.rs). Its client is src/cache/http.rs. The cluster server
-- (src/cluster_server.rs) answers the same requests from a distributed cache. src/auth.rs has tokens and
-- rate limits for such a server, and src/auto_scaling.rs decides how many workers run. A built graph is
-- exported as an OCI image and pushed to a registry (src/export); src/audit.rs keeps a hash-chained log.
--
-- Files, and the code that they model:
--   Prelude          tests on the native numbers, lists, texts, maps, and the calls of the Rust
--                    library on texts that the parser makes
--   Prelude/Sorting  `sort` by an order
--   Prelude/Results  `anyhow::Result` as a value, and fallible steps on a state
--   Graph            src/graph.rs: `Node`, `NodeKind`, `NodeMetadata`, `BuildGraph`
--   Graph/Topo       `topological_order` and `dfs_topo`
--   Graph/Levels     `levels`
--   Graph/Key        `Node::compute_node_key`
--   Core             src/core.rs: `detect_changes`, `propagate_dirty`, `compute_composite_hashes`,
--                    `propagate_manifests`
--   Docker           src/docker/parser.rs: `parse_dockerfile`, and src/docker/dag.rs:
--                    `build_graph_from_instructions`
--   Hasher           src/hasher: `hash_path`, `walk_dir`, `IgnoreRules`
--   Cache/Chunks     src/cache/utils.rs: `split_artifact`, `merge_artifact`
--   Cache/Manifest   src/cache/utils.rs: `ArtifactManifest`
--   Cache/Local      src/cache/local.rs: `LocalCache`
--   Cache/Remote     src/cache/remote.rs: the trait `RemoteCache`, and a cache in memory
--   Cache/Hybrid     src/cache/hybrid.rs: `get_artifact`, `put_artifact`, `prefetch_artifacts`
--   Cache/Cluster    src/cache/cluster.rs: `ConsistentHashRing`, `CacheCluster`, `DistributedCache`
--   Cache/Router     src/remote_router/router.rs: `CacheRouter`
--   Cache/Http       src/cache/http.rs: `HttpRemoteCache`, `retry_with_backoff`
--   Server/Storage   src/storage/mod.rs and src/storage/local.rs: `ArtifactStorage`, `LocalStorage`
--   Server/Metadata  src/server/metadata.rs: the tables of `MetadataStore` and its statements
--   Server/Postgres  src/cache/metadata.rs: the statements of `PostgresMetadataStore`
--   Server/Handlers  src/server/mod.rs: the handlers and the routes
--   Server/Gc        src/gc.rs: `GarbageCollector::sweep`
--   Server/Auth      src/auth.rs: `AuthState`, `auth_middleware`
--   Server/Cluster   src/cluster_server.rs: the handlers; src/main.rs: the cache of a cluster server
--   Scaling          src/auto_scaling.rs: `AutoScaler`, `QueueBasedScaler`
--   Executor         src/executor.rs: `execute` and all that it calls; src/remote_exec/mod.rs and
--                    src/sandbox/mod.rs: the interfaces that it uses
--   Ai               src/ai: `analyze_dependencies`, `optimize_graph`
--   Sandbox          src/sandbox/local.rs: `LocalSandbox`
--   Build            src/main.rs: `run_build`, up to the end of the executor's run
--   Build/Explain    src/main.rs: `run_explain_cache`
--   Export           src/export: `export_image`, `OciExporter`, `RegistryClient`
--   Audit            src/audit.rs: `AuditLog`, `AuditLogger`
--   Scheduler        src/remote_exec/scheduler.rs: the choice of a worker
--   Tests            a sample Dockerfile, its graph, a build of it, caches in memory, and
--                    the theorems at inputs that meet their hypotheses
--
-- Texts are lists of character codes and are read as ASCII: `to_uppercase` and white space are those
-- of ASCII. Machine integers that only count or index are natural numbers. A step on a state returns
-- the state beside an error too, since what was written stays written.
--
-- Fuel: `dfs_topo` takes as fuel the number of nodes, which is enough since each call marks a node
-- that was not marked; `none` stands for a panic on an index out of range. `chunks` takes the length
-- of the data as fuel, since each round takes at least a byte off. All other loops are structural. The
-- requests that the cluster server makes to itself are bounded by a depth, at which the client gives up.
--
-- A file system is a map from paths, as they are written, to contents; a path that names a directory
-- is not distinguished from one that names nothing. SQLite and PostgreSQL are their tables, and their
-- statements fail only on a foreign key, if it is enforced. A lock of tokio is the guards on it: a
-- call that waits for one has no result.
--
-- The bodies of uploads have axum's default limit of 2 MiB; the JSON of a request is given as what it is
-- parsed to. The cache of a build has no remote side, as `create_cache` of src/main.rs makes it.
--
-- Parameters: BLAKE3, SHA-256, Argon2, gzip, tar, JSON, the image registry, the arithmetic of `f64`,
-- the network between the client and the server, the standard library's hash, the text of `{:?}`, the
-- order of iteration of a hash map, the file system's answers, the clock, random numbers, the shell,
-- the remote executor, the remote cache, and regular expressions. A task that a build spawns runs to
-- its end where it is spawned.
--
-- Not modelled: the interleaving of the futures of one level, of the replication tasks of a cluster
-- and of those of the router, which run one after the other here; printing, progress bars and
-- observers; what a build does after its executor; the upload of files of the hybrid cache; the
-- dashboard, the websockets and the webhook of the server; the prediction of the auto-scaler; the
-- Redis cache, the cloud storages, the operator and the tools around a build, which are glue over
-- libraries.
pub mod Prelude
pub mod Graph
pub mod Core
pub mod Docker
pub mod Cache
pub mod Ai
pub mod Executor
pub mod Sandbox
pub mod Build
pub mod Scheduler
pub mod Hasher
pub mod Server
pub mod Scaling
pub mod Audit
pub mod Export
mod Tests
