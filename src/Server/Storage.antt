-- ===== src/Server/Storage.antt =====
-- src/storage/mod.rs, the trait `ArtifactStorage`, and src/storage/local.rs, `LocalStorage`. The files
-- are a map from paths, as they are written, to contents. How the file system answers is a parameter.
pub mod Paths
pub mod Blobs
use memo_build.Prelude.{
  ℕ, ◌+◌, Bool, true, false, Option, none, some, List, [], ◌∷◌, ◌++◌, if◌then◌else◌, ltb, length,
  take, drop, Text, codes, text_eq, join, lookup, insert, remove,
}
use memo_build.Prelude.Results.{Result, ok, err, io_error, Action}

pub record ArtifactStorage (S : Type 0) : Type 0 where
  pub put : Text → Text → Action S Text
  pub get : Text → Action S (Option Text)
  pub exists : Text → Action S Bool
  pub delete : Text → Action S (Unit {0})

-- Which files can be created, read and removed, and after how many bytes a write to a file fails.
pub record FileSystem : Type 0 where
  pub creatable : Text → Bool
  pub write_limit : Text → Option ℕ
  pub readable : Text → Bool
  pub removable : Text → Bool

abbrev pub Files : Type 0
Files = List (Text × Text)

unfoldable pub get_sharded_path : Text → Text → Text
unfolding join
get_sharded_path base_dir hash =
    if ltb (length hash) 4
    then join base_dir hash
    else join (join (join base_dir (take 2 hash)) (take 2 (drop 2 hash))) hash

-- `File::create` and `write_all`: what was written before an error stays in the file.
abbrev pub write_file : Text → Text → Option ℕ → Action Files Text
write_file path bytes none files = (ok path, insert path bytes files)
write_file path bytes (some n) files = (err io_error, insert path (take n bytes) files)

-- A blob that is there is not written again.
abbrev pub put_at : FileSystem → Text → Text → Option Text → Action Files Text
put_at fs path bytes (some old) files = (ok path, files)
put_at fs path bytes none files =
    if fs.creatable path
    then write_file path bytes (fs.write_limit path) files
    else (err io_error, files)

abbrev pub read_at : FileSystem → Text → Option Text → Result (Option Text)
read_at fs path none = ok none
read_at fs path (some bytes) = if fs.readable path then ok (some bytes) else err io_error

abbrev pub is_there : Option Text → Bool
is_there none = false
is_there (some bytes) = true

abbrev pub delete_at : FileSystem → Text → Option Text → Action Files (Unit {0})
delete_at fs path none files = (ok tt, files)
delete_at fs path (some bytes) files =
    if fs.removable path then (ok tt, remove path files) else (err io_error, files)

module _ (fs : FileSystem) (base_dir : Text) where
  unfoldable pub put : Text → Text → Action Files Text
  unfolding insert lookup
  put hash bytes files =
      let path = get_sharded_path base_dir hash in put_at fs path bytes (lookup path files) files

  unfoldable pub get : Text → Action Files (Option Text)
  unfolding lookup
  get hash files =
      let path = get_sharded_path base_dir hash in (read_at fs path (lookup path files), files)

  unfoldable pub exists : Text → Action Files Bool
  unfolding lookup
  exists hash files = (ok (is_there (lookup (get_sharded_path base_dir hash) files)), files)

  unfoldable pub delete : Text → Action Files (Unit {0})
  unfolding lookup remove
  delete hash files =
      let path = get_sharded_path base_dir hash in delete_at fs path (lookup path files) files

  abbrev pub local_storage : ArtifactStorage Files
  local_storage = record { put = put; get = get; exists = exists; delete = delete }
