-- ===== src/Server/Handlers/Keeps.antt =====
-- src/server/mod.rs: what a request keeps of the storage, by the calls that its handler makes.
use memo_build.Prelude.{
  ltb, ◌≡◌, Bool, true, false, Option, none, some, List, [], ◌∷◌, inl, inr, if◌then◌else◌,
  Bool-cases, length, Text, text_eq, text_eq_iff,
}
use memo_build.Prelude.Results.{Result, ok, err, Action}
use memo_build.Graph.{BuildGraph}
use memo_build.Server.Storage.{ArtifactStorage}
use memo_build.Server.Metadata.{CacheRow}
use memo_build.Server.Handlers as Handlers
use memo_build.Server.Handlers.{
  MetadataStore, AppState, Response, Handler, ok_200, created_201, no_body, bytes, on_storage,
  on_metadata, respond, match_ok, reply, delete_entries, delete_layers,
}
use memo_build.Server.Handlers.Requests.{
  Request, head_cache, get_cache, put_cache, head_layer, get_layer, put_layer, get_layers,
  post_layers, post_gc, post_analytics, post_dag, get_dag, get_api_layers, route, run_requests,
}

-- The calls that the server makes of a storage keep `Intact`.
pub record IsContentStore {S : Type 0} (store : ArtifactStorage S) (blake3 : Text → Text)
    (Intact : S → Type 0) : Type 0 where
  pub put_Intact :
      (hash body : Text) (s : S) → blake3 body ≡ hash → Intact s → Intact (store.put hash body s).1
  pub get_Intact : (hash : Text) (s : S) → Intact s → Intact (store.get hash s).1
  pub delete_Intact : (hash : Text) (s : S) → Intact s → Intact (store.delete hash s).1

module _ {S M : Type 0} (store : ArtifactStorage S) (meta : MetadataStore M) (blake3 : Text → Text)
    (Intact : S → Type 0) (content : IsContentStore store blake3 Intact) where
  abbrev Keeps : Handler S M → Type 0
  Keeps h = (st : AppState S M) → Intact st.storage → Intact (h st).1.storage

  respond-Keeps :
      {A : Type 0} (r : Result A) (f : A → Handler S M)
      → ((a : A) → Keeps (f a))
      → Keeps (respond r f)
  respond-Keeps (ok a) f k st i = k a st i
  respond-Keeps (err e) f k st i = i

  match_ok-Keeps :
      {A : Type 0} (step : Action (AppState S M) A) (f : A → Handler S M)
      → ((st : AppState S M) → Intact st.storage → Intact (step st).1.storage)
      → ((a : A) → Keeps (f a))
      → Keeps (match_ok step f)
  match_ok-Keeps step f keeps k st i =
      let (r, st') = step st in respond-Keeps r f k (step st).1 (keeps st i)

  check_found-Keeps :
      (hash : Text) (b : Bool) → Keeps (Handlers.check_found store meta blake3 hash b)
  check_found-Keeps hash true st i = i
  check_found-Keeps hash false st i = i

  get_found-Keeps :
      (hash : Text) (o : Option Text) → Keeps (Handlers.get_found store meta blake3 hash o)
  get_found-Keeps hash none st i = i
  get_found-Keeps hash (some data_) st i = i

  reply_bytes-Keeps : (o : Option Text) → Keeps (Handlers.reply_bytes o)
  reply_bytes-Keeps none st i = i
  reply_bytes-Keeps (some data_) st i = i

  reply_layers-Keeps : (o : Option (List Text)) → Keeps (Handlers.reply_layers o)
  reply_layers-Keeps none st i = i
  reply_layers-Keeps (some ls) st i = i

  reply_dag-Keeps : (o : Option BuildGraph) → Keeps (Handlers.reply_dag store meta blake3 o)
  reply_dag-Keeps none st i = i
  reply_dag-Keeps (some graph) st i = i

  delete_found-Intact :
      (hash : Text) (r : Result (Option CacheRow)) (st : AppState S M)
      → Intact st.storage
      → Intact (Handlers.delete_found store meta blake3 hash r st).1.storage
  delete_found-Intact hash (ok (some row)) st i = content.delete_Intact hash st.storage i
  delete_found-Intact hash (ok none) st i = i
  delete_found-Intact hash (err e) st i = i

  delete_entries-Intact :
      (hashes : List Text) (st : AppState S M)
      → Intact st.storage
      → Intact (delete_entries store meta blake3 hashes st).1.storage
  unfolding delete_entries
  delete_entries-Intact [] st i = i
  delete_entries-Intact (hash ∷ hashes) st i =
      let (r, m) = meta.get hash st.metadata in
      delete_entries-Intact hashes _ (delete_found-Intact hash r (record st { metadata = m }) i)

  delete_layers-Intact :
      (unused : List (Text × Text)) (st : AppState S M)
      → Intact st.storage
      → Intact (delete_layers store meta blake3 unused st).1.storage
  unfolding delete_layers
  delete_layers-Intact [] st i = i
  delete_layers-Intact ((hash, path) ∷ unused) st i =
      delete_layers-Intact unused _ (content.delete_Intact hash st.storage i)

  delete_unused-Intact :
      (r : Result (List (Text × Text))) (st : AppState S M)
      → Intact st.storage
      → Intact (Handlers.delete_unused store meta blake3 r st).1.storage
  delete_unused-Intact (ok unused) st i = delete_layers-Intact unused st i
  delete_unused-Intact (err e) st i = i

  collect-Keeps : (hashes : List Text) → Keeps (Handlers.collect store meta blake3 hashes)
  collect-Keeps hashes st i =
      let (n, st') = delete_entries store meta blake3 hashes st in
      let (r, m) = meta.get_unused_layers st'.metadata in
      delete_unused-Intact r (record st' { metadata = m }) (delete_entries-Intact hashes st i)

  put-Keeps :
      (hash body : Text) (f : Text → Handler S M)
      → ((path : Text) → Keeps (f path))
      → Keeps (λ st.
        if ltb Handlers.body_limit (length body)
        then reply Handlers.payload_too_large_413 st
        else if text_eq (blake3 body) hash
        then match_ok (on_storage (store.put hash body)) f st
        else reply Handlers.bad_request_400 st)
  put-Keeps hash body f k st i = elim (Bool-cases (ltb Handlers.body_limit (length body))) [
    | inl too_large ↦ rw too_large i
    | inr fits ↦ elim (Bool-cases (text_eq (blake3 body) hash)) [
      | inl same ↦
          rw (fits, same)
            (match_ok-Keeps (on_storage (store.put hash body)) f
              (λ st' i'.
                content.put_Intact hash body st'.storage ((text_eq_iff (blake3 body) hash).0 same)
                  i')
              k st i)
      | inr other ↦ rw (fits, other) i
    ]
  ]

  stored-Keeps :
      (step : Text → Action M (Unit {0})) (path : Text)
      → Keeps (match_ok (on_metadata (step path)) (λ done. reply created_201))
  stored-Keeps step path = match_ok-Keeps _ _ (λ st i. i) (λ done st i. i)

  pub route-Keeps : (r : Request) → Keeps (route store meta blake3 r)
  unfolding route Handlers.check_cache Handlers.get_artifact Handlers.put_artifact
      Handlers.check_layer Handlers.get_layer Handlers.put_layer Handlers.get_node_layers
      Handlers.register_node_layers Handlers.gc_cache Handlers.report_analytics
      Handlers.register_dag Handlers.get_dag Handlers.get_layer_stats_handler
  route-Keeps (head_cache hash) = match_ok-Keeps _ _ (λ st i. i) (check_found-Keeps hash)
  route-Keeps (get_cache hash) =
      match_ok-Keeps _ _ (λ st. content.get_Intact hash st.storage) (get_found-Keeps hash)
  route-Keeps (put_cache hash body) =
      put-Keeps hash body _ (stored-Keeps (λ path. meta.insert hash path (length body)))
  route-Keeps (head_layer hash) = match_ok-Keeps _ _ (λ st i. i) (λ b st i. i)
  route-Keeps (get_layer hash) =
      match_ok-Keeps _ _ (λ st. content.get_Intact hash st.storage) reply_bytes-Keeps
  route-Keeps (put_layer hash body) =
      put-Keeps hash body _ (stored-Keeps (λ path. meta.insert_layer hash path (length body)))
  route-Keeps (get_layers hash) = match_ok-Keeps _ _ (λ st i. i) reply_layers-Keeps
  route-Keeps (post_layers hash layers total_size) = match_ok-Keeps _ _ (λ st i. i) (λ done st i. i)
  route-Keeps (post_gc days) = match_ok-Keeps _ _ (λ st i. i) collect-Keeps
  route-Keeps (post_analytics dirty cached duration_ms) =
      match_ok-Keeps _ _ (λ st i. i) (λ done st i. i)
  route-Keeps (post_dag graph) = λ st i. i
  route-Keeps get_dag = λ st. reply_dag-Keeps st.current_dag st
  route-Keeps get_api_layers = match_ok-Keeps _ _ (λ st i. i) (λ done st i. i)

  pub run_requests-Intact :
      (rs : List Request) (st : AppState S M)
      → Intact st.storage
      → Intact (run_requests store meta blake3 rs st).storage
  unfolding run_requests
  run_requests-Intact [] st i = i
  run_requests-Intact (r ∷ rs) st i =
      run_requests-Intact rs (route store meta blake3 r st).1 (route-Keeps r st i)
