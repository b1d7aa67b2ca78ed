-- ===== src/Cache/Cluster/Membership.antt =====
-- src/cache/cluster.rs, `CacheCluster`: the nodes with their health, and the ring. The clock is a
-- parameter.
pub mod Replicas
use memo_build.Prelude.{
  ℕ, zero, suc, ◌+◌, ◌%◌, Bool, true, false, not, ◌&&◌, ◌||◌, Option, none, some, List, [], ◌∷◌,
  ◌++◌, map, if◌then◌else◌, length, get_or, filter, Text, text_eq, contains_text, lookup, insert,
  remove,
}
use memo_build.Cache.Cluster.Ring
use memo_build.Cache.Cluster.Ring.{ConsistentHashRing, get_node}

pub record ClusterNode : Type 0 where
  pub id : Text
  pub address : Text
  pub weight : ℕ
  pub region : Option Text

pub record NodeStatus : Type 0 where
  pub node : ClusterNode
  pub is_healthy : Bool
  pub last_heartbeat : ℕ
  pub cache_size : ℕ
  pub connections : ℕ

pub record CacheCluster : Type 0 where
  pub nodes : List (Text × NodeStatus)
  pub ring : ConsistentHashRing
  pub replication_factor : ℕ

pub record ClusterStatus : Type 0 where
  pub total_nodes : ℕ
  pub healthy_nodes : ℕ
  pub replication_factor : ℕ
  pub nodes : List NodeStatus

abbrev pub empty_ring : ConsistentHashRing
empty_ring = record { nodes = []; replicas = 100 }

-- A node that has just joined.
abbrev pub joined : ℕ → ClusterNode → NodeStatus
joined now node = record {
  node = node;
  is_healthy = true;
  last_heartbeat = now;
  cache_size = 0;
  connections = 0;
}

unfoldable pub remove_node : Text → CacheCluster → CacheCluster
remove_node node_id c = record c {
  nodes = remove node_id c.nodes;
  ring = Ring.remove_node node_id c.ring;
}

abbrev pub set_health : ℕ → Bool → NodeStatus → NodeStatus
set_health now healthy status = record status { is_healthy = healthy; last_heartbeat = now }

-- A node that is not a member is left out.
unfoldable pub update_node_health : ℕ → Text → Bool → CacheCluster → CacheCluster
update_node_health now node_id healthy c = elim (lookup node_id c.nodes) [
  | none ↦ c
  | some status ↦ record c { nodes = insert node_id (set_health now healthy status) c.nodes }
]

unfoldable pub get_cluster_status : CacheCluster → ClusterStatus
get_cluster_status c =
    let statuses : List NodeStatus = map (λ (e : Text × NodeStatus). e.1) c.nodes in
    record {
      total_nodes = length c.nodes;
      healthy_nodes = length (filter (λ (s : NodeStatus). s.is_healthy) statuses);
      replication_factor = c.replication_factor;
      nodes = statuses;
    }

-- The index of the first entry of a node, or the length of the ring.
unfoldable pub position : Text → List (ℕ × Text) → ℕ
position id [] = 0
position id (e ∷ es) = let rest = position id es in if text_eq (e.1) id then 0 else rest + 1

-- `ring.nodes[i].1`; the caller keeps the index in range.
abbrev pub id_at : List (ℕ × Text) → ℕ → Text
id_at es i = (get_or es i (0, [])).1

abbrev pub add_replica : Text → Text → List Text → List Text
add_replica primary id replicas =
    if not (text_eq id primary) && not (contains_text replicas id)
    then replicas ++ id ∷ []
    else replicas

-- The rounds of the loop from the `i`-th entry behind the primary's on.
unfoldable pub collect_replicas : List (ℕ × Text) → Text → ℕ → ℕ → List Text → List Text
unfolding position
collect_replicas es primary zero i replicas = replicas
collect_replicas es primary (suc rounds) i replicas =
    collect_replicas es primary rounds (i + 1)
      (add_replica primary (id_at es ((position primary es + i) % length es)) replicas)

unfoldable pub replicas_of : CacheCluster → Option Text → List Text
unfolding collect_replicas
replicas_of c none = []
replicas_of c (some primary) = collect_replicas c.ring.nodes primary c.replication_factor 1 []

module _ (hash : Text → ℕ) (to_string : ℕ → Text) where
  unfoldable pub new : ClusterNode → ℕ → CacheCluster
  new local_node replication_factor = record {
    nodes = [];
    ring = Ring.add_node hash to_string local_node.id empty_ring;
    replication_factor = replication_factor;
  }

  unfoldable pub add_node : ℕ → ClusterNode → CacheCluster → CacheCluster
  add_node now node c = record c {
    nodes = insert node.id (joined now node) c.nodes;
    ring = Ring.add_node hash to_string node.id c.ring;
  }

  unfoldable pub get_primary_node : Text → CacheCluster → Option Text
  get_primary_node key c = get_node hash to_string key c.ring

  unfoldable pub get_replica_nodes : Text → CacheCluster → List Text
  unfolding replicas_of
  get_replica_nodes key c = replicas_of c (get_node hash to_string key c.ring)
