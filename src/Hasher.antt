-- ===== src/Hasher.antt =====
-- src/hasher: the hash of a file or of a directory, and the rules of a .dockerignore file. The walk of a
-- directory, the reads of a file, the patterns of the glob crate, the path below the root, the order
-- of paths and BLAKE3 are parameters. Paths are relative and have no empty component.
pub mod Ignore
pub mod Determinism
use memo_build.Prelude.{
  Bool, true, false, Option, none, some, List, [], ◌∷◌, ◌++◌, if◌then◌else◌, Text,
}
use memo_build.Prelude.Results.{Result, ok, err, io_error}
use memo_build.Prelude.Sorting.{sort_by}

-- What a walk comes to: an error, what is no regular file, or a file with its path.
pub data DirEntry : Type 0 where
  walk_error : DirEntry
  other : Text → DirEntry
  a_file : Text → DirEntry

pub data PathKind : Type 0 where
  directory file neither : PathKind

-- The standard library's and the crates' answers about paths and files.
pub record Disk : Type 0 where
  pub walk : Text → List DirEntry
  -- `strip_prefix(root).unwrap_or(path)`
  pub relative : Text → Text → Text
  -- the results of one read after the other, or none where the file cannot be opened
  pub reads : Text → Option (List (Result Text))
  pub kind : Text → PathKind
  pub leb : Text → Text → Bool

module _ (blake3 : Text → Text) (disk : Disk) (is_ignored : Text → Bool) where
  -- The files that are not ignored, in the order in which they are found.
  unfoldable pub visible : Text → List DirEntry → List Text
  visible root [] = []
  visible root (walk_error ∷ entries) = visible root entries
  visible root (other path ∷ entries) = visible root entries
  visible root (a_file path ∷ entries) =
      let rest = visible root entries in
      if is_ignored (disk.relative root path) then rest else path ∷ rest

  unfoldable pub walk_dir : Text → List Text
  unfolding visible sort_by
  walk_dir root = sort_by disk.leb (visible root (disk.walk root))

  -- The loop over the reads, which ends at an empty one; `seen` is what the hasher was fed.
  unfoldable pub hash_reads : Text → List (Result Text) → Result Text
  hash_reads seen [] = ok (blake3 seen)
  hash_reads seen (err e ∷ reads) = err e
  hash_reads seen (ok [] ∷ reads) = ok (blake3 seen)
  hash_reads seen (ok (c ∷ bytes) ∷ reads) = hash_reads (seen ++ c ∷ bytes) reads

  abbrev pub hash_opened : Option (List (Result Text)) → Result Text
  hash_opened none = err io_error
  hash_opened (some reads) = hash_reads [] reads

  unfoldable pub hash_file : Text → Result Text
  unfolding hash_reads
  hash_file path = hash_opened (disk.reads path)

  abbrev pub feed : Text → Result Text → Option Text → Option Text
  feed path (err e) rest = none
  feed path (ok file_hash) none = none
  feed path (ok file_hash) (some bytes) = some (path ++ file_hash ++ bytes)

  -- What the hasher of a directory is fed, or none if a file cannot be hashed: of several errors it is
  -- not determined which one the parallel iterator returns.
  unfoldable pub hash_files : Text → List Text → Option Text
  unfolding hash_file
  hash_files root [] = some []
  hash_files root (path ∷ paths) =
      feed (disk.relative root path) (hash_file path) (hash_files root paths)

  abbrev pub digest : Option Text → Option Text
  digest (some bytes) = some (blake3 bytes)
  digest none = none

  unfoldable pub hash_dir : Text → Option Text
  unfolding walk_dir hash_files
  hash_dir root = digest (hash_files root (walk_dir root))

  -- The hash, if there is no error.
  abbrev hash_of : Result Text → Option Text
  hash_of (ok file_hash) = some file_hash
  hash_of (err e) = none

  abbrev by_kind : Text → PathKind → Option Text
  by_kind path directory = hash_dir path
  by_kind path file = hash_of (hash_file path)
  by_kind path neither = some (blake3 path)

  unfoldable pub hash_path : Text → Option Text
  unfolding hash_dir hash_file
  hash_path path = by_kind path (disk.kind path)
