-- ===== src/Server/Handlers/Requests.antt =====
-- src/server/mod.rs, the routes of `start_server`, as calls of the handlers, and sequences of them. The
-- handlers run on the storage of src/storage/local.rs and the database of src/server/metadata.rs; the
-- time of each call is the parameter `now`, and the age of `n` days is the time `cutoff n`.
use memo_build.Prelude.{ℕ, Bool, List, [], ◌∷◌, Text, lookup}
use memo_build.Prelude.Results.{ok, Action}
use memo_build.Graph.{BuildGraph}
use memo_build.Server.Storage.{ArtifactStorage}
use memo_build.Server.Metadata.{
  Db, insert_artifact, insert_layered_node, insert_layer, get_node_layers, layer_exists, touch,
  exists, delete, get_unused_layers, delete_layer_metadata, get_layer_stats, get_old_entries,
  record_build,
}
use memo_build.Server.Handlers as Handlers
use memo_build.Server.Handlers.{MetadataStore, AppState, Response}

abbrev change : (Db → Db) → Action Db (Unit {0})
change f db = (ok tt, f db)

abbrev query : {A : Type 0} → (Db → A) → Action Db A
query f db = (ok (f db), db)

-- The database as the handlers use it.
abbrev pub sqlite : Bool → Text → (ℕ → Text) → MetadataStore Db
sqlite foreign_keys now cutoff = record {
  insert = λ hash path size. change (insert_artifact now hash path size);
  insert_layered_node = insert_layered_node foreign_keys now;
  insert_layer = λ hash path size. change (insert_layer now hash path size);
  get_node_layers = λ hash. query (get_node_layers hash);
  layer_exists = λ hash. query (layer_exists hash);
  get = λ hash. query (λ db. lookup hash db.cache_entries);
  touch = λ hash. change (touch now hash);
  exists = λ hash. query (exists hash);
  delete = λ hash. change (delete hash);
  get_unused_layers = query get_unused_layers;
  delete_layer_metadata = delete_layer_metadata foreign_keys;
  get_layer_stats = query get_layer_stats;
  get_old_entries = λ days. query (get_old_entries (cutoff days));
  record_build = λ dirty cached duration_ms. change (record_build now dirty cached duration_ms);
}

pub data Request : Type 0 where
  head_cache get_cache : (hash : Text) → Request
  put_cache : (hash body : Text) → Request
  head_layer get_layer : (hash : Text) → Request
  put_layer : (hash body : Text) → Request
  get_layers : (hash : Text) → Request
  post_layers : (hash : Text) (layers : List Text) (total_size : ℕ) → Request
  post_gc : (days : ℕ) → Request
  post_analytics : (dirty cached duration_ms : ℕ) → Request
  post_dag : (graph : BuildGraph) → Request
  get_dag get_api_layers : Request

module _ {S M : Type 0} (store : ArtifactStorage S) (meta : MetadataStore M)
    (blake3 : Text → Text) where
  unfoldable pub route : Request → AppState S M → Response × AppState S M
  route (head_cache hash) = Handlers.check_cache store meta blake3 hash
  route (get_cache hash) = Handlers.get_artifact store meta blake3 hash
  route (put_cache hash body) = Handlers.put_artifact store meta blake3 hash body
  route (head_layer hash) = Handlers.check_layer store meta blake3 hash
  route (get_layer hash) = Handlers.get_layer store meta blake3 hash
  route (put_layer hash body) = Handlers.put_layer store meta blake3 hash body
  route (get_layers hash) = Handlers.get_node_layers store meta blake3 hash
  route (post_layers hash layers total_size) =
      Handlers.register_node_layers store meta blake3 hash layers total_size
  route (post_gc days) = Handlers.gc_cache store meta blake3 days
  route (post_analytics dirty cached duration_ms) =
      Handlers.report_analytics store meta blake3 dirty cached duration_ms
  route (post_dag graph) = Handlers.register_dag store meta blake3 graph
  route get_dag = Handlers.get_dag store meta blake3
  route get_api_layers = Handlers.get_layer_stats_handler store meta blake3

  -- The state after requests that come one by one.
  unfoldable pub run_requests : List Request → AppState S M → AppState S M
  unfolding route
  run_requests [] st = st
  run_requests (r ∷ rs) st = run_requests rs (route r st).1
