-- ===== src/Server/Postgres.antt =====
-- src/cache/metadata.rs, `PostgresMetadataStore`: the same tables as in SQLite, with foreign keys that
-- are enforced and cascade. A statement fails on a violated constraint only; the table of builds is of
-- SQLite alone and stays empty.
pub mod Soundness
use memo_build.Prelude.{
  ℕ, ◌+◌, Bool, true, false, not, Option, none, some, List, [], ◌∷◌, map, length, filter, Text,
  lookup, insert, remove,
}
use memo_build.Prelude.Results.{Action}
use memo_build.Server.Metadata.{
  CacheRow, LayerRow, Mapping, Db, upsert_entry, new_row, add_mappings, delete_mappings, commit,
  on_conflict, new_layer, use_layer, layers_of, unless_empty, is_in_table, is_of,
}

unfoldable pub insert_artifact : Text → Text → Text → ℕ → Db → Db
unfolding insert lookup
insert_artifact now hash path size db = upsert_entry now hash (new_row now path size false) db

unfoldable pub insert_layered_node : Text → Text → ℕ → List Text → Action Db (Unit {0})
unfolding add_mappings insert lookup
insert_layered_node now hash size layer_hashes db =
    let entered = upsert_entry now hash (new_row now [] size true) db in
    commit (add_mappings true hash 0 layer_hashes (delete_mappings hash entered)) db

unfoldable pub insert_layer : Text → Text → Text → ℕ → Db → Db
unfolding insert lookup
insert_layer now hash path size db = record db {
  cache_layers =
      insert hash
        (on_conflict (new_layer now path size) (use_layer now) (lookup hash db.cache_layers))
        db.cache_layers;
}

unfoldable pub get_node_layers : Text → Db → Option (List Text)
unfolding layers_of lookup
get_node_layers hash db =
    unless_empty (layers_of hash db.node_to_layers) (is_in_table (lookup hash db.cache_entries))

unfoldable pub layer_exists : Text → Db → Bool
unfolding lookup
layer_exists hash db = is_in_table (lookup hash db.cache_layers)

-- A row goes with the mappings that refer to it.
abbrev pub delete_cascade : Text → Db → Db
delete_cascade hash db = record db {
  node_to_layers = filter (λ m. not (is_of hash m)) db.node_to_layers;
  cache_entries = remove hash db.cache_entries;
}

unfoldable pub delete_rows : List Text → Db → Db
unfolding remove
delete_rows [] db = db
delete_rows (hash ∷ hashes) db = delete_rows hashes (delete_cascade hash db)

-- The rows with `last_used < $1`.
abbrev pub old_hashes : (Text → Text → Bool) → Text → Db → List Text
old_hashes earlier cutoff db =
    map (λ (e : Text × CacheRow). e.0)
      (filter (λ (e : Text × CacheRow). earlier e.1.last_used cutoff) db.cache_entries)

-- `DELETE FROM cache_entries WHERE last_used < $1`; the time is `cutoff`, and `earlier` the order of
-- the type TIMESTAMPTZ.
unfoldable pub cleanup_old_entries : (Text → Text → Bool) → Text → Db → ℕ × Db
unfolding delete_rows
cleanup_old_entries earlier cutoff db =
    let hashes = old_hashes earlier cutoff db in (length hashes, delete_rows hashes db)

abbrev path_of : Option LayerRow → Option Text
path_of none = none
path_of (some row) = some row.storage_path

unfoldable pub get_layer_path : Text → Db → Option Text
unfolding lookup
get_layer_path hash db = path_of (lookup hash db.cache_layers)

unfoldable pub get : Text → Db → Option CacheRow
unfolding lookup
get hash db = lookup hash db.cache_entries

pub record DatabaseStats : Type 0 where
  pub total_entries : ℕ
  pub total_size : ℕ
  pub total_layers : ℕ
  pub layer_size : ℕ
  pub total_size_all : ℕ

-- `SELECT COALESCE(SUM(size), 0)`
unfoldable pub sum_of : {A : Type 0} → (A → ℕ) → List (Text × A) → ℕ
sum_of size [] = 0
sum_of size ((hash, row) ∷ rows) = size row + sum_of size rows

unfoldable pub get_stats : Db → DatabaseStats
unfolding sum_of
get_stats db =
    let total_size = sum_of (λ (row : CacheRow). row.size) db.cache_entries in
    let layer_size = sum_of (λ (row : LayerRow). row.size) db.cache_layers in
    record {
      total_entries = length db.cache_entries;
      total_size = total_size;
      total_layers = length db.cache_layers;
      layer_size = layer_size;
      total_size_all = total_size + layer_size;
    }
