-- ===== src/Cache/Cluster.antt =====
-- src/cache/cluster.rs: the ring of a cluster of caches (`Ring`), its membership (`Membership`), and the
-- cache that is spread over it (`Distributed`).
pub mod Ring
pub mod Membership
pub mod Distributed
