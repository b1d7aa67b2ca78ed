-- ===== src/Tests/Servers.antt =====
-- A server on such a directory and a database, with a hash that tells an empty body from others.
use memo_build.Prelude.{
  ℕ, ◌≡◌, refl, true, false, Option, some, List, [], ◌∷◌, ◌++◌, Text, codes, drop, arith, ap,
}
use memo_build.Prelude.Results.{ok, err, remote_error}
use memo_build.Server.Storage as Storage
use memo_build.Server.Storage.{local_storage, get_sharded_path, Files}
use memo_build.Server.Storage.Paths.{is_plain}
use memo_build.Server.Metadata.{
  Db, new_db, exists, delete, insert_layered_node, insert_layer, get_unused_layers, get_old_entries,
}
use memo_build.Server.Metadata.Calls.{
  Call, insert_layer_call, insert_layered_node_call, delete_call, run_calls, AllUnreferenced,
  get_unused_layers-AllUnreferenced,
}
use memo_build.Server.Handlers as Handlers
use memo_build.Server.Handlers.{
  AppState, ok_200, created_201, no_body, bytes, deleted_counts, gc_cache,
}
use memo_build.Server.Handlers.Requests.{
  sqlite, Request, put_cache, put_layer, post_layers, run_requests,
}
use memo_build.Server.Handlers.Integrity.{new_server, get_artifact-IsIntact, put_artifact_served}
use memo_build.Server.Gc.{GarbageCollector, new_collector, sweep}
use memo_build.Server.Gc.Agreement.{sweep-gc_cache}
use memo_build.Cache.Http.{put, put_layer_data}
use memo_build.Cache.Http.Uploads.{connect, uploads-refused}
use memo_build.Tests.Storage.{reliable, reliable-IsReliable, base_dir}

abbrev blake3 : Text → Text
blake3 [] = codes "0000"
blake3 (c ∷ s) = codes "1111"

blake3-IsPlain : (body : Text) → is_plain (blake3 body) ≡ true
blake3-IsPlain [] = refl
blake3-IsPlain (c ∷ s) = refl

abbrev cutoff : ℕ → Text
cutoff days = codes "2026-01-02"

abbrev requests : List Request
requests =
    put_layer (codes "1111") (codes "layer")
    ∷ post_layers (codes "node") (codes "1111" ∷ []) 5
    ∷ put_cache (codes "0000") (codes "not empty")
    ∷ []

abbrev now : Text
now = codes "2026-01-01"

reads_layer :
    (Handlers.get_artifact
      (local_storage reliable base_dir)
      (sqlite true now cutoff)
      blake3
      (codes "1111")
      (run_requests
        (local_storage reliable base_dir)
        (sqlite true now cutoff)
        blake3
        requests
        (new_server new_db))).0
    ≡ (ok_200, bytes (codes "layer"))
unfolding run_requests Handlers.get_artifact Storage.get Handlers.put_artifact
    Handlers.register_node_layers insert_layered_node Handlers.put_layer Storage.put insert_layer
    get_sharded_path
reads_layer = refl

get_artifact-IsIntact_example : blake3 (codes "layer") ≡ codes "1111"
get_artifact-IsIntact_example =
    get_artifact-IsIntact (sqlite true now cutoff) new_db reliable base_dir blake3 (λ p. refl) refl
      blake3-IsPlain requests (codes "1111") (codes "layer") refl reads_layer

put_artifact_served_example :
    let store = local_storage reliable base_dir in
    let meta = sqlite true now cutoff in
    let st = run_requests store meta blake3 requests (new_server new_db) in
    let (response, st') =
      Handlers.put_artifact store meta blake3 (blake3 (codes "artifact")) (codes "artifact") st in
    (response ≡ (created_201, no_body))
    × ((kept : Text) × ((Handlers.get_artifact store meta blake3 (blake3 (codes "artifact")) st').0
          ≡ (ok_200, bytes kept))
        × (blake3 kept ≡ blake3 (codes "artifact")))
put_artifact_served_example =
    put_artifact_served reliable base_dir blake3 true now cutoff reliable-IsReliable refl
      blake3-IsPlain requests (codes "artifact") refl

-- A layer that a deleted node has listed, and one that a node lists.
abbrev calls : List Call
calls =
    insert_layer_call now (codes "one") (codes "/one") 3
    ∷ insert_layer_call now (codes "two") (codes "/two") 3
    ∷ insert_layered_node_call now (codes "first") 3 (codes "one" ∷ [])
    ∷ insert_layered_node_call now (codes "second") 3 (codes "two" ∷ [])
    ∷ delete_call (codes "first")
    ∷ []

get_unused_layers-AllUnreferenced_example :
    AllUnreferenced
      (run_calls true calls new_db).node_to_layers
      (get_unused_layers (run_calls true calls new_db))
get_unused_layers-AllUnreferenced_example = get_unused_layers-AllUnreferenced calls

abbrev database : Db
database = run_calls true calls new_db

abbrev listed : List Text
listed = codes "two" ∷ codes "one" ∷ codes "two" ∷ []

abbrev gzip : Text → Text
gzip data_ = codes "gz" ++ data_

abbrev gunzip : Text → Option Text
gunzip data_ = some (drop 2 data_)

abbrev a_server : AppState Files Db
a_server = new_server database

not_there : exists (codes "0000") database ≡ false
unfolding exists run_calls delete insert_layered_node insert_layer
not_there = refl

uploads-refused_example :
    let send = connect (local_storage reliable base_dir) (sqlite true now cutoff) blake3 in
    (put send gzip gunzip (codes "0000") [] a_server ≡ (err remote_error, a_server))
    × (put_layer_data send gzip gunzip (codes "0000") [] a_server ≡ (err remote_error, a_server))
uploads-refused_example =
    uploads-refused (local_storage reliable base_dir) (sqlite true now cutoff) blake3 gzip gunzip
      (codes "0000") [] a_server (ap (λ b. (ok b, database)) not_there) refl

abbrev collector : GarbageCollector
collector = new_collector (record { max_age_days = 30; max_size_bytes = 0; interval_secs = 3600 })

sweep-gc_cache_example :
    let store = local_storage reliable base_dir in
    let meta = sqlite true now cutoff in
    let (result, gc, swept) = sweep store meta blake3 now 7 collector a_server in
    gc_cache store meta blake3 30 a_server
    ≡ ((ok_200, deleted_counts result.deleted_artifacts result.deleted_layers), swept)
sweep-gc_cache_example =
    sweep-gc_cache (local_storage reliable base_dir) (sqlite true now cutoff) blake3 now 7 collector
      a_server (get_old_entries (codes "2026-01-02") database) refl (omega arith) refl
