-- ===== src/Server/Metadata/Tables.antt =====
-- src/server/metadata.rs: the tables, and what a statement does to a row or to a table's rows.
use memo_build.Prelude.{
  ℕ, ◌+◌, Bool, true, false, not, ◌&&◌, Option, none, some, List, [], ◌∷◌, if◌then◌else◌, any, Text,
  text_eq, text_leb,
}
use memo_build.Prelude.Int.{ℤ, pos, increment, decrement, is_above}

-- The row of `cache_entries` under its primary key.
pub record CacheRow : Type 0 where
  pub artifact_path : Text
  pub size : ℕ
  pub created_at : Text
  pub last_used : Text
  pub hit_count : ℕ
  pub is_layered : Bool

pub record LayerRow : Type 0 where
  pub size : ℕ
  pub storage_path : Text
  pub created_at : Text
  pub last_used : Text
  pub ref_count : ℤ

pub record Mapping : Type 0 where
  pub node_hash : Text
  pub layer_hash : Text
  pub position : ℕ

pub record BuildRecord : Type 0 where
  pub id : ℕ
  pub timestamp : Text
  pub dirty_nodes : ℕ
  pub cached_nodes : ℕ
  pub duration_ms : ℕ

pub record LayerStats : Type 0 where
  pub total_layers : ℕ
  pub total_size : ℕ
  pub deduplicated_size : ℕ

pub record Db : Type 0 where
  pub cache_entries : List (Text × CacheRow)
  pub cache_layers : List (Text × LayerRow)
  pub node_to_layers : List Mapping
  pub build_analytics : List BuildRecord

-- `MetadataStore::new` on a new file.
abbrev pub new_db : Db
new_db = record { cache_entries = []; cache_layers = []; node_to_layers = []; build_analytics = [] }

abbrev pub touch_row : Text → CacheRow → CacheRow
touch_row now row = record row { last_used = now; hit_count = row.hit_count + 1 }

-- `INSERT ... ON CONFLICT(hash) DO UPDATE`, by the row that is there.
abbrev pub on_conflict : {A : Type 0} → A → (A → A) → Option A → A
on_conflict new update none = new
on_conflict new update (some row) = update row

-- A row of `cache_entries` that is new.
abbrev pub new_row : Text → Text → ℕ → Bool → CacheRow
new_row now path size layered = record {
  artifact_path = path;
  size = size;
  created_at = now;
  last_used = now;
  hit_count = 0;
  is_layered = layered;
}

abbrev pub is_of : Text → Mapping → Bool
is_of hash m = text_eq m.node_hash hash

abbrev pub is_in_table {ℓ} : {A : Type ℓ} → Option A → Bool
is_in_table none = false
is_in_table (some row) = true

abbrev pub inc_ref : LayerRow → LayerRow
inc_ref row = record row { ref_count = increment row.ref_count }

abbrev pub dec_ref : LayerRow → LayerRow
dec_ref row = record row { ref_count = decrement row.ref_count }

-- `UPDATE cache_layers SET ref_count = ref_count + 1 WHERE layer_hash = ?1`
abbrev pub inc_where : Text → List (Text × LayerRow) → List (Text × LayerRow)
inc_where hash [] = []
inc_where hash ((h, row) ∷ rows) =
    (h, if text_eq h hash then inc_ref row else row) ∷ inc_where hash rows

abbrev pub new_layer : Text → Text → ℕ → LayerRow
new_layer now path size = record {
  size = size;
  storage_path = path;
  created_at = now;
  last_used = now;
  ref_count = pos 0;
}

abbrev pub use_layer : Text → LayerRow → LayerRow
use_layer now row = record row { last_used = now }

abbrev pub slot : Mapping → ℕ × Text
slot m = (m.position, m.layer_hash)

-- Whether the node lists the layer.
abbrev pub lists : Text → List Mapping → Text → Bool
lists node ms layer = any (λ m. is_of node m && text_eq m.layer_hash layer) ms

-- `UPDATE cache_layers SET ref_count = ref_count - 1 WHERE layer_hash IN (SELECT ...)`
abbrev pub dec_listed : Text → List Mapping → List (Text × LayerRow) → List (Text × LayerRow)
dec_listed node ms [] = []
dec_listed node ms ((h, row) ∷ rows) =
    (h, if lists node ms h then dec_ref row else row) ∷ dec_listed node ms rows

abbrev pub is_unused : Text × LayerRow → Bool
is_unused (hash, row) = not (is_above 0 row.ref_count)

-- Whether a node lists the layer.
abbrev pub is_referenced : List Mapping → Text → Bool
is_referenced ms layer = any (λ m. text_eq m.layer_hash layer) ms

-- `last_used < datetime('now', '-N days')`; the second time is `cutoff`.
abbrev pub is_old : Text → Text × CacheRow → Bool
is_old cutoff (hash, row) = not (text_leb cutoff row.last_used)
