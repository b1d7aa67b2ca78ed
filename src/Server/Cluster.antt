-- ===== src/Server/Cluster.antt =====
-- src/cluster_server.rs: the handlers of the cluster server, on any distributed cache, and src/main.rs, the
-- cache that it is started with. The scaling and health routes are left out. The client and the distributed
-- cache are those of src/cache/http.rs and src/cache/cluster.rs, of which src/main.rs takes the near copies
-- src/remote_cache.rs and src/cache_cluster.rs.
pub mod SelfRequests
use memo_build.Prelude.{
  ℕ, zero, suc, Bool, true, false, Option, none, some, List, [], if◌then◌else◌, Text, codes, ltb,
  length,
}
use memo_build.Prelude.Results.{Result, ok, err, remote_error, Action}
use memo_build.Cache.Remote.{RemoteCache}
use memo_build.Cache.Cluster.Membership as Membership
use memo_build.Cache.Cluster.Membership.{ClusterNode, CacheCluster}
use memo_build.Cache.Cluster.Distributed.{DistributedCache, distributed}
use memo_build.Cache.Http.{http_remote_cache}
use memo_build.Server.Handlers.{
  Status, ok_200, created_201, not_found_404, payload_too_large_413, body_limit,
  internal_server_error_500, Body, no_body, bytes, layers, Response,
}
use memo_build.Server.Handlers.Requests.{
  Request, head_cache, get_cache, put_cache, head_layer, get_layer, put_layer, get_layers,
  post_layers, post_gc, post_analytics, post_dag, get_dag, get_api_layers,
}

abbrev pub found_status : Result Bool → Status
found_status (ok true) = ok_200
found_status (ok false) = not_found_404
found_status (err e) = internal_server_error_500

abbrev data_response : Result (Option Text) → Response
data_response (ok (some data_)) = (ok_200, bytes data_)
data_response (ok none) = (not_found_404, no_body)
data_response (err e) = (internal_server_error_500, no_body)

abbrev done_status : Status → Result (Unit {0}) → Status
done_status status (ok done) = status
done_status status (err e) = internal_server_error_500

-- No list of layers is `null` in JSON.
abbrev layers_response : Result (Option (List Text)) → Response
layers_response (ok (some ls)) = (ok_200, layers ls)
layers_response (ok none) = (ok_200, bytes (codes "null"))
layers_response (err e) = (internal_server_error_500, no_body)

module _ {R : Type 0} (cache : RemoteCache R) where
  unfoldable pub check_cache : Text → R → Response × R
  check_cache hash w = let (r, w') = cache.has hash w in ((found_status r, no_body), w')

  unfoldable pub get_artifact : Text → R → Response × R
  get_artifact hash w = let (r, w') = cache.get hash w in (data_response r, w')

  unfoldable pub put_artifact : Text → Text → R → Response × R
  put_artifact hash body w =
      if ltb body_limit (length body)
      then ((payload_too_large_413, no_body), w)
      else let (r, w') = cache.put hash body w in ((done_status created_201 r, no_body), w')

  unfoldable pub check_layer : Text → R → Response × R
  check_layer hash w = let (r, w') = cache.has_layer hash w in ((found_status r, no_body), w')

  unfoldable pub get_layer_handler : Text → R → Response × R
  get_layer_handler hash w = let (r, w') = cache.get_layer hash w in (data_response r, w')

  unfoldable pub put_layer_handler : Text → Text → R → Response × R
  put_layer_handler hash body w =
      if ltb body_limit (length body)
      then ((payload_too_large_413, no_body), w)
      else let (r, w') = cache.put_layer hash body w in ((done_status created_201 r, no_body), w')

  unfoldable pub get_node_layers : Text → R → Response × R
  get_node_layers hash w = let (r, w') = cache.get_node_layers hash w in (layers_response r, w')

  unfoldable pub register_node_layers : Text → List Text → ℕ → R → Response × R
  register_node_layers hash ls total_size w =
      let (r, w') = cache.register_node_layers hash ls total_size w in
      ((done_status ok_200 r, no_body), w')

  -- A path that is not routed is answered 404.
  unfoldable pub answer : Request → R → Response × R
  unfolding check_cache get_artifact put_artifact check_layer get_layer_handler put_layer_handler
      get_node_layers register_node_layers
  answer (head_cache hash) = check_cache hash
  answer (get_cache hash) = get_artifact hash
  answer (put_cache hash body) = put_artifact hash body
  answer (head_layer hash) = check_layer hash
  answer (get_layer hash) = get_layer_handler hash
  answer (put_layer hash body) = put_layer_handler hash body
  answer (get_layers hash) = get_node_layers hash
  answer (post_layers hash ls total_size) = register_node_layers hash ls total_size
  answer (post_gc days) = λ w. ((not_found_404, no_body), w)
  answer (post_analytics dirty cached duration_ms) = λ w. ((not_found_404, no_body), w)
  answer (post_dag graph) = λ w. ((not_found_404, no_body), w)
  answer get_dag = λ w. ((not_found_404, no_body), w)
  answer get_api_layers = λ w. ((not_found_404, no_body), w)

-- What the client makes of an answer, which it waits for or not.
abbrev pub relay : {R : Type 0} → Bool → Response × R → Result Response × R
relay true (response, w) = (ok response, w)
relay false (response, w) = (err remote_error, w)

abbrev or_100 : Option ℕ → ℕ
or_100 none = 100
or_100 (some weight) = weight

module _ (hash : Text → ℕ) (to_string : ℕ → Text) where
  unfoldable pub add_cluster_node :
      ℕ → Text → Text → Option ℕ → Option Text → CacheCluster → CacheCluster
  unfolding Membership.add_node
  add_cluster_node now id address weight region cluster =
      Membership.add_node hash to_string now
        (record { id = id; address = address; weight = or_100 weight; region = region }) cluster

  abbrev pub remove_cluster_node : Text → CacheCluster → CacheCluster
  remove_cluster_node node_id cluster = Membership.remove_node node_id cluster

  -- The cache of the cluster server as src/main.rs makes it: its local cache is a client of the server itself,
  -- and no client is ever added for another node. `send` sends a request to the server.
  module _ {R : Type 0} (cluster : CacheCluster) (gzip : Text → Text)
      (gunzip : Text → Option Text) where
    abbrev pub cache_over : (Request → Action R Response) → RemoteCache R
    cache_over send = distributed hash to_string (record {
      cluster = cluster;
      local_cache = http_remote_cache send gzip gunzip;
      remote_clients = [];
    })

    -- A request that the server sends to itself. `depth` is how many such requests, each made by the
    -- handler of the one before, are made before the client gives up; `answered` says at which
    -- depths it waits for the answer.
    unfoldable pub send_to_self : (ℕ → Bool) → ℕ → Request → Action R Response
    unfolding answer
    send_to_self answered zero request w = (err remote_error, w)
    send_to_self answered (suc depth) request w =
        relay (answered depth) (answer (cache_over (send_to_self answered depth)) request w)

    -- What a request from outside is answered.
    unfoldable pub serve : (ℕ → Bool) → ℕ → Request → R → Response × R
    unfolding answer send_to_self
    serve answered depth = answer (cache_over (send_to_self answered depth))
