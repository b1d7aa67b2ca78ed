-- ===== src/Cache/Local.antt =====
-- src/cache/local.rs, `LocalCache`. The cache directory is its artifact files by name, and the entries
-- that `index.json` holds: an artifact's name ends in `.bin`, so that no artifact overwrites the index.
-- Whether the file system accepts a read or a write is a parameter, and so is the time of day.
pub mod Laws
use memo_build.Prelude.{
  ℕ, Bool, true, false, Option, none, some, List, [], ◌∷◌, ◌++◌, if◌then◌else◌, length, Text, codes,
  lookup, insert,
}
use memo_build.Prelude.Results.{Result, ok, err, io_error, Action}

pub record CacheEntry : Type 0 where
  pub cache_key : Text
  pub created_at : ℕ
  pub artifact_path : Text
  pub size : ℕ

-- The map in memory, and what is on the disk.
pub record LocalCache : Type 0 where
  pub store : List (Text × CacheEntry)
  pub files : List (Text × Text)
  pub index : List (Text × CacheEntry)

-- The file system: which files can be read and written, and whether the index can be.
pub record Disk : Type 0 where
  pub readable : Text → Bool
  pub writable : Text → Bool
  pub index_writable : Bool

-- `LocalCache::new` on the directory that another run left: the map is what the index holds.
unfoldable pub reopen : LocalCache → LocalCache
reopen c = record c { store = c.index }

abbrev pub artifact_name : Text → Text
artifact_name key = key ++ codes ".bin"

-- A file that is not there is a miss, and one that cannot be read an error.
unfoldable pub read_artifact : Disk → LocalCache → CacheEntry → Result (Option Text)
read_artifact disk c entry = elim (lookup entry.artifact_path c.files) [
  | none ↦ ok none
  | some bytes ↦ if disk.readable entry.artifact_path then ok (some bytes) else err io_error
]

unfoldable pub get_data : Disk → Text → LocalCache → Result (Option Text)
unfolding read_artifact
get_data disk key c = elim (lookup key c.store) [
  | none ↦ ok none
  | some entry ↦ read_artifact disk c entry
]

-- The map is written to the index.
unfoldable pub save_index : Disk → Action LocalCache (Unit {0})
save_index disk c =
    if disk.index_writable then (ok tt, record c { index = c.store }) else (err io_error, c)

unfoldable pub put : Disk → ℕ → Text → Text → Action LocalCache (Unit {0})
unfolding save_index
put disk now key bytes c =
    let path = artifact_name key in
    let entry : CacheEntry = record {
      cache_key = key;
      created_at = now;
      artifact_path = path;
      size = length bytes;
    } in
    let written : LocalCache = record c { files = insert path bytes c.files } in
    if disk.writable path
    then save_index disk (record written { store = insert key entry c.store })
    else (err io_error, c)

abbrev is_some {ℓ} : {A : Type ℓ} → Option A → Bool
is_some none = false
is_some (some a) = true

unfoldable pub exists : Text → LocalCache → Bool
exists key c = is_some (lookup key c.store)
