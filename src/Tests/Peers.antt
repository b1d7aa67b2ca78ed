-- ===== src/Tests/Peers.antt =====
-- A cluster server whose first request to itself is not answered in time.
use memo_build.Prelude.{
  ℕ, ◌≡◌, Bool, ltb, Option, none, some, [], ◌∷◌, ◌++◌, Text, codes, drop, length,
}
use memo_build.Cache.Cluster.Membership.{CacheCluster, ClusterNode, new}
use memo_build.Server.Handlers.{internal_server_error_500, no_body}
use memo_build.Server.Handlers.Requests.{get_cache, put_cache}
use memo_build.Server.Cluster.{serve, add_cluster_node}
use memo_build.Server.Cluster.SelfRequests.{serve-fails}

abbrev to_string : ℕ → Text
to_string n = n ∷ []

abbrev local_node : ClusterNode
local_node = record {
  id = codes "node-1";
  address = codes "http://localhost:9090";
  weight = 100;
  region = none;
}

abbrev cluster : CacheCluster
cluster =
    add_cluster_node length to_string 0 (codes "peer-1") (codes "http://peer-1") none none
      (new length to_string local_node 2)

abbrev gzip : Text → Text
gzip data_ = codes "gz" ++ data_

abbrev gunzip : Text → Option Text
gunzip data_ = some (drop 2 data_)

-- The client of the outermost request is the first to give up.
abbrev answered : ℕ → Bool
answered depth = ltb depth 9

serve-fails_example :
    let server = serve length to_string {R = ℕ} cluster gzip gunzip answered 10 in
    (server (get_cache (codes "0123456789")) 7 ≡ ((internal_server_error_500, no_body), 7))
    × (server (put_cache (codes "0123456789") (codes "data")) 7
        ≡ ((internal_server_error_500, no_body), 7))
serve-fails_example =
    serve-fails length to_string cluster gzip gunzip answered 10 (codes "0123456789") (codes "data")
      7
