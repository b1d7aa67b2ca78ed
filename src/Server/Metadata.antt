-- ===== src/Server/Metadata.antt =====
-- src/server/metadata.rs, `MetadataStore`: the tables of the database and what its statements do to
-- them. SQLite's enforcement of foreign keys, which is chosen when SQLite is built, is the parameter
-- `foreign_keys`; a statement fails on a violated constraint only. A time is the text that is stored.
mod Tables
pub mod References
pub mod Counting
pub mod Calls
pub mod Layers
use memo_build.Prelude.{
  ℕ, zero, suc, ◌+◌, ◌≤◌, Bool, true, false, not, ◌&&◌, ◌||◌, Option, none, some, List, [], ◌∷◌,
  ◌++◌, map, if◌then◌else◌, length, filter, any, take, Text, text_eq, text_leb, lookup, insert,
  remove, leb,
}
use memo_build.Prelude.Int.{ℤ, pos, increment, decrement, is_above}
use memo_build.Prelude.Results.{Result, ok, err, constraint_failed, Action, pure}
use memo_build.Cache.Cluster.Ring.{sort_entries}
pub use Tables.{
  CacheRow, LayerRow, Mapping, BuildRecord, LayerStats, Db, new_db, touch_row, on_conflict, new_row,
  is_of, is_in_table, inc_ref, dec_ref, inc_where, new_layer, use_layer, slot, lists, dec_listed,
  is_unused, is_referenced, is_old,
}

abbrev pub upsert_entry : Text → Text → CacheRow → Db → Db
upsert_entry now hash row db = record db {
  cache_entries =
      insert hash (on_conflict row (touch_row now) (lookup hash db.cache_entries)) db.cache_entries;
}

unfoldable pub insert_artifact : Text → Text → Text → ℕ → Db → Db
unfolding insert lookup
insert_artifact now hash path size db = upsert_entry now hash (new_row now path size false) db

-- The two statements of a round of the loop over the layers.
abbrev pub add_mapping : Text → ℕ → Text → Db → Db
add_mapping hash position layer_hash db = record db {
  node_to_layers =
      db.node_to_layers
      ++ record { node_hash = hash; layer_hash = layer_hash; position = position } ∷ [];
  cache_layers = inc_where layer_hash db.cache_layers;
}

-- The loop over the layers; the parent row of the node is there.
unfoldable pub add_mappings : Bool → Text → ℕ → List Text → Db → Result Db
add_mappings foreign_keys hash position [] db = ok db
add_mappings foreign_keys hash position (l ∷ ls) db =
    let rest = add_mappings foreign_keys hash (position + 1) ls (add_mapping hash position l db) in
    if foreign_keys && not (is_in_table (lookup l db.cache_layers))
    then err constraint_failed
    else rest

abbrev pub delete_mappings : Text → Db → Db
delete_mappings hash db = record db {
  node_to_layers = filter (λ m. not (is_of hash m)) db.node_to_layers;
}

-- A transaction that is not committed is rolled back.
abbrev pub commit : Result Db → Action Db (Unit {0})
commit (ok after) db = (ok tt, after)
commit (err e) db = (err e, db)

unfoldable pub insert_layered_node : Bool → Text → Text → ℕ → List Text → Action Db (Unit {0})
unfolding add_mappings insert lookup
insert_layered_node foreign_keys now hash size layer_hashes db =
    let entered = upsert_entry now hash (new_row now [] size true) db in
    commit (add_mappings foreign_keys hash 0 layer_hashes (delete_mappings hash entered)) db

unfoldable pub insert_layer : Text → Text → Text → ℕ → Db → Db
unfolding insert lookup
insert_layer now hash path size db = record db {
  cache_layers =
      insert hash
        (on_conflict (new_layer now path size) (use_layer now) (lookup hash db.cache_layers))
        db.cache_layers;
}

-- `SELECT layer_hash ... ORDER BY position`
unfoldable pub layers_of : Text → List Mapping → List Text
layers_of hash ms = map (λ (e : ℕ × Text). e.1) (sort_entries (map slot (filter (is_of hash) ms)))

abbrev pub unless_empty : List Text → Bool → Option (List Text)
unless_empty [] false = none
unless_empty [] true = some []
unless_empty (l ∷ ls) exists = some (l ∷ ls)

unfoldable pub get_node_layers : Text → Db → Option (List Text)
unfolding layers_of lookup
get_node_layers hash db =
    unless_empty (layers_of hash db.node_to_layers) (is_in_table (lookup hash db.cache_entries))

unfoldable pub layer_exists : Text → Db → Bool
unfolding lookup
layer_exists hash db = is_in_table (lookup hash db.cache_layers)

abbrev pub touch_found : Text → Text → Option CacheRow → Db → Db
touch_found now hash none db = db
touch_found now hash (some row) db = record db {
  cache_entries = insert hash (touch_row now row) db.cache_entries;
}

-- `UPDATE cache_entries ... WHERE hash = ?2`
unfoldable pub touch : Text → Text → Db → Db
unfolding insert lookup
touch now hash db = touch_found now hash (lookup hash db.cache_entries) db

unfoldable pub exists : Text → Db → Bool
unfolding lookup
exists hash db = is_in_table (lookup hash db.cache_entries)

unfoldable pub delete : Text → Db → Db
unfolding remove
delete hash db = record db {
  cache_layers = dec_listed hash db.node_to_layers db.cache_layers;
  node_to_layers = filter (λ m. not (is_of hash m)) db.node_to_layers;
  cache_entries = remove hash db.cache_entries;
}

unfoldable pub get_unused_layers : Db → List (Text × Text)
get_unused_layers db =
    map (λ (e : Text × LayerRow). (e.0, e.1.storage_path)) (filter is_unused db.cache_layers)

unfoldable pub delete_layer_metadata : Bool → Text → Action Db (Unit {0})
unfolding remove
delete_layer_metadata foreign_keys hash db =
    if foreign_keys && is_referenced db.node_to_layers hash
    then (err constraint_failed, db)
    else (ok tt, record db { cache_layers = remove hash db.cache_layers })

-- The table of builds is made when the first is recorded; its `id` counts up.
unfoldable pub record_build : Text → ℕ → ℕ → ℕ → Db → Db
record_build now dirty cached duration_ms db = record db {
  build_analytics =
      db.build_analytics
      ++ record {
        id = length db.build_analytics + 1;
        timestamp = now;
        dirty_nodes = dirty;
        cached_nodes = cached;
        duration_ms = duration_ms;
      }
        ∷ [];
}

unfoldable pub get_old_entries : Text → Db → List Text
get_old_entries cutoff db =
    map (λ (e : Text × CacheRow). e.0) (filter (is_old cutoff) db.cache_entries)

unfoldable pub delete_all : List Text → Db → Db
unfolding delete
delete_all [] db = db
delete_all (hash ∷ hashes) db = delete_all hashes (delete hash db)

unfoldable pub cleanup_old_entries : Text → Db → ℕ × Db
unfolding delete_all get_old_entries
cleanup_old_entries cutoff db =
    let entries = get_old_entries cutoff db in (length entries, delete_all entries db)

abbrev sizes : List (Text × LayerRow) → ℕ
sizes [] = 0
sizes ((h, row) ∷ rows) = row.size + sizes rows

unfoldable pub get_layer_stats : Db → LayerStats
get_layer_stats db = record {
  total_layers = length db.cache_layers;
  total_size = sizes db.cache_layers;
  deduplicated_size =
      sizes (filter (λ (e : Text × LayerRow). is_above 1 e.1.ref_count) db.cache_layers);
}
