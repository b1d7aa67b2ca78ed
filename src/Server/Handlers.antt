-- ===== src/Server/Handlers.antt =====
-- src/server/mod.rs: the handlers of the cache server, on any storage and any metadata store. A response
-- is its status and its body, the texts of error messages left out. The hash of a body, BLAKE3 in
-- hexadecimal digits, is a parameter. The dashboard, the websocket, the metrics, the list of builds and the
-- webhook are left out. A request's JSON is given as what it is parsed to.
pub mod Requests
pub mod Keeps
pub mod Integrity
use memo_build.Prelude.{
  ℕ, ◌+◌, Bool, true, false, not, Option, none, some, List, [], ◌∷◌, ◌++◌, if◌then◌else◌, length,
  Text, text_eq, ltb,
}
use memo_build.Prelude.Results.{Result, ok, err, Action}
use memo_build.Graph.{Node, BuildGraph}
use memo_build.Server.Storage.{ArtifactStorage}
use memo_build.Server.Metadata.{CacheRow, LayerStats}

-- What the handlers use of a metadata store: with an error, as every call of a database may fail.
pub record MetadataStore (M : Type 0) : Type 0 where
  pub insert : Text → Text → ℕ → Action M (Unit {0})
  pub insert_layered_node : Text → ℕ → List Text → Action M (Unit {0})
  pub insert_layer : Text → Text → ℕ → Action M (Unit {0})
  pub get_node_layers : Text → Action M (Option (List Text))
  pub layer_exists : Text → Action M Bool
  pub get : Text → Action M (Option CacheRow)
  pub touch : Text → Action M (Unit {0})
  pub exists : Text → Action M Bool
  pub delete : Text → Action M (Unit {0})
  pub get_unused_layers : Action M (List (Text × Text))
  pub delete_layer_metadata : Text → Action M (Unit {0})
  pub get_layer_stats : Action M LayerStats
  pub get_old_entries : ℕ → Action M (List Text)
  pub record_build : ℕ → ℕ → ℕ → Action M (Unit {0})

pub data Status : Type 0 where
  ok_200 created_201 bad_request_400 not_found_404 payload_too_large_413 internal_server_error_500 :
      Status

pub data Body : Type 0 where
  no_body : Body
  bytes : Text → Body
  layers : List Text → Body
  dag : List Node → List (ℕ × ℕ) → Body
  stats : LayerStats → Body
  deleted_counts : ℕ → ℕ → Body

-- The most bytes of a body that axum 0.6 extracts where no layer changes its default limit.
abbrev pub body_limit : ℕ
body_limit = 2097152

abbrev pub Response : Type 0
Response = Status × Body

pub record AppState (S M : Type 0) : Type 0 where
  pub storage : S
  pub metadata : M
  pub current_dag : Option BuildGraph

abbrev pub Handler : Type 0 → Type 0 → Type 0
Handler S M = AppState S M → Response × AppState S M

module _ {S M : Type 0} where
  abbrev pub on_storage : {A : Type 0} → Action S A → Action (AppState S M) A
  on_storage step st = let (r, s) = step st.storage in (r, record st { storage = s })

  abbrev pub on_metadata : {A : Type 0} → Action M A → Action (AppState S M) A
  on_metadata step st = let (r, m) = step st.metadata in (r, record st { metadata = m })

  abbrev pub respond : {A : Type 0} → Result A → (A → Handler S M) → Handler S M
  respond (ok a) f st = f a st
  respond (err e) f st = ((internal_server_error_500, no_body), st)

  -- `match step { Ok(a) => ..., Err(e) => INTERNAL_SERVER_ERROR }`
  abbrev pub match_ok : {A : Type 0} → Action (AppState S M) A → (A → Handler S M) → Handler S M
  match_ok step f st = let (r, st') = step st in respond r f st'

  abbrev pub reply : Status → Handler S M
  reply status st = ((status, no_body), st)

  -- `let _ = step` before the response.
  abbrev pub after : {A : Type 0} → Action (AppState S M) A → Handler S M → Handler S M
  after step h st = let (r, st') = step st in h st'

  abbrev pub found_or_not : Bool → Handler S M
  found_or_not found = reply (if found then ok_200 else not_found_404)

  abbrev pub reply_bytes : Option Text → Handler S M
  reply_bytes none st = reply not_found_404 st
  reply_bytes (some data_) st = ((ok_200, bytes data_), st)

  abbrev pub reply_layers : Option (List Text) → Handler S M
  reply_layers none st = reply not_found_404 st
  reply_layers (some ls) st = ((ok_200, layers ls), st)

-- The pairs of a dependency and the node that has it, the nodes in order from the `i`-th.
abbrev edges_to : ℕ → List ℕ → List (ℕ × ℕ) → List (ℕ × ℕ)
edges_to i [] rest = rest
edges_to i (dep ∷ deps) rest = (dep, i) ∷ edges_to i deps rest

unfoldable pub edges_from : ℕ → List Node → List (ℕ × ℕ)
edges_from i [] = []
edges_from i (node ∷ nodes) = edges_to i node.deps (edges_from (i + 1) nodes)

module _ {S M : Type 0} (store : ArtifactStorage S) (meta : MetadataStore M)
    (blake3 : Text → Text) where
  abbrev pub check_found : Text → Bool → Handler S M
  check_found hash true = after (on_metadata (meta.touch hash)) (reply ok_200)
  check_found hash false = reply not_found_404

  unfoldable pub check_cache : Text → Handler S M
  check_cache hash = match_ok (on_metadata (meta.exists hash)) (check_found hash)

  abbrev pub get_found : Text → Option Text → Handler S M
  get_found hash none = reply not_found_404
  get_found hash (some data_) = after (on_metadata (meta.touch hash)) (reply_bytes (some data_))

  unfoldable pub get_artifact : Text → Handler S M
  get_artifact hash = match_ok (on_storage (store.get hash)) (get_found hash)

  unfoldable pub put_artifact : Text → Text → Handler S M
  put_artifact hash body st =
      if ltb body_limit (length body)
      then reply payload_too_large_413 st
      else if text_eq (blake3 body) hash
      then match_ok (on_storage (store.put hash body))
          (λ path.
            match_ok (on_metadata (meta.insert hash path (length body)))
              (λ done. reply created_201))
          st
      else reply bad_request_400 st

  unfoldable pub check_layer : Text → Handler S M
  check_layer hash = match_ok (on_metadata (meta.layer_exists hash)) found_or_not

  unfoldable pub get_layer : Text → Handler S M
  get_layer hash = match_ok (on_storage (store.get hash)) reply_bytes

  unfoldable pub put_layer : Text → Text → Handler S M
  put_layer hash body st =
      if ltb body_limit (length body)
      then reply payload_too_large_413 st
      else if text_eq (blake3 body) hash
      then match_ok (on_storage (store.put hash body))
          (λ path.
            match_ok (on_metadata (meta.insert_layer hash path (length body)))
              (λ done. reply created_201))
          st
      else reply bad_request_400 st

  unfoldable pub register_node_layers : Text → List Text → ℕ → Handler S M
  register_node_layers hash layer_hashes total_size =
      match_ok (on_metadata (meta.insert_layered_node hash total_size layer_hashes))
        (λ done. reply ok_200)

  unfoldable pub get_node_layers : Text → Handler S M
  get_node_layers hash = match_ok (on_metadata (meta.get_node_layers hash)) reply_layers

  unfoldable pub report_analytics : ℕ → ℕ → ℕ → Handler S M
  report_analytics dirty cached duration_ms =
      match_ok (on_metadata (meta.record_build dirty cached duration_ms)) (λ done. reply ok_200)

  unfoldable pub get_layer_stats_handler : Handler S M
  get_layer_stats_handler =
      match_ok (on_metadata meta.get_layer_stats) (λ data_ st. ((ok_200, stats data_), st))

  unfoldable pub register_dag : BuildGraph → Handler S M
  register_dag graph st = reply ok_200 (record st { current_dag = some graph })

  abbrev pub reply_dag : Option BuildGraph → Handler S M
  reply_dag none st = reply not_found_404 st
  reply_dag (some graph) st = ((ok_200, dag graph.nodes (edges_from 0 graph.nodes)), st)

  unfoldable pub get_dag : Handler S M
  unfolding edges_from
  get_dag st = reply_dag st.current_dag st

  -- A round over the old entries: whether it was deleted, and the state after it.
  abbrev pub delete_found : Text → Result (Option CacheRow) → AppState S M → Bool × AppState S M
  delete_found hash (ok (some row)) st =
      (true, (on_metadata (meta.delete hash) ((on_storage (store.delete hash)) st).1).1)
  delete_found hash (ok none) st = (false, st)
  delete_found hash (err e) st = (false, st)

  unfoldable pub delete_entries : List Text → AppState S M → ℕ × AppState S M
  delete_entries [] st = (0, st)
  delete_entries (hash ∷ hashes) st =
      let (r, st') = on_metadata (meta.get hash) st in
      let (was_deleted, st'') = delete_found hash r st' in
      let (n, last) = delete_entries hashes st'' in (if was_deleted then n + 1 else n, last)

  unfoldable pub delete_layers : List (Text × Text) → AppState S M → ℕ × AppState S M
  delete_layers [] st = (0, st)
  delete_layers ((hash, path) ∷ unused) st =
      let st' =
        (on_metadata (meta.delete_layer_metadata hash) (on_storage (store.delete hash) st).1).1 in
      let (n, last) = delete_layers unused st' in (n + 1, last)

  abbrev pub delete_unused : Result (List (Text × Text)) → AppState S M → ℕ × AppState S M
  delete_unused (ok unused) st = delete_layers unused st
  delete_unused (err e) st = (0, st)

  abbrev pub collect : List Text → Handler S M
  collect hashes st =
      let (node_count, st') = delete_entries hashes st in
      let (r, st'') = on_metadata meta.get_unused_layers st' in
      let (layer_count, last) = delete_unused r st'' in
      ((ok_200, deleted_counts node_count layer_count), last)

  unfoldable pub gc_cache : ℕ → Handler S M
  unfolding delete_entries delete_layers
  gc_cache days = match_ok (on_metadata (meta.get_old_entries days)) collect
