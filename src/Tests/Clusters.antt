-- ===== src/Tests/Clusters.antt =====
-- A ring of two nodes, and a cluster on it.
use memo_build.Prelude.{ℕ, ◌≡◌, ◌⊎◌, refl, true, some, [], ◌∷◌, length, Text, codes, text_eq, arith}
use memo_build.Cache.Cluster.Ring.{
  ConsistentHashRing, get_node, owner, first_from, add_node, sort_entries, insert_entry,
  virtual_nodes,
}
use memo_build.Cache.Cluster.Ring.Sorted.{IsSorted}
use memo_build.Cache.Cluster.Ring.Remap.{IsAbsent, get_node-add_node}
use memo_build.Cache.Cluster.Membership.{CacheCluster, get_primary_node, get_replica_nodes}
use memo_build.Cache.Cluster.Membership.Replicas.{AreReplicas, get_replica_nodes-AreReplicas}

abbrev hash : Text → ℕ
hash t = length t

abbrev digits : ℕ → Text
digits n = n ∷ []

abbrev ring : ConsistentHashRing
ring = record { nodes = (3, codes "a") ∷ (6, codes "b") ∷ []; replicas = 1 }

ring-IsSorted : IsSorted ring.nodes
ring-IsSorted = ((omega arith, tt), (tt, tt))

ring-IsAbsent : IsAbsent (codes "c") ring.nodes
ring-IsAbsent = (refl, (refl, tt))

key_after :
    get_node hash digits (codes "key") (add_node hash digits (codes "c") ring) ≡ some (codes "a")
unfolding get_node owner first_from add_node sort_entries insert_entry virtual_nodes
key_after = refl

get_node-add_node_example :
    (text_eq (codes "a") (codes "c") ≡ true)
    ⊎ (get_node hash digits (codes "key") ring ≡ some (codes "a"))
get_node-add_node_example =
    get_node-add_node hash digits (codes "c") ring (codes "key") (codes "a") ring-IsSorted
      ring-IsAbsent key_after

abbrev cluster : CacheCluster
cluster = record { nodes = []; ring = ring; replication_factor = 2 }

key_primary : get_primary_node hash digits (codes "key") cluster ≡ some (codes "a")
unfolding get_primary_node get_node owner first_from
key_primary = refl

get_replica_nodes-AreReplicas_example :
    AreReplicas (codes "a") 2 (get_replica_nodes hash digits (codes "key") cluster)
get_replica_nodes-AreReplicas_example =
    get_replica_nodes-AreReplicas hash digits cluster (codes "key") (codes "a") key_primary
