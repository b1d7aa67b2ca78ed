-- ===== src/Cache/Manifest.antt =====
-- src/cache/utils.rs, `ArtifactManifest`: the files of a directory by their hashes. What a walk of the
-- directory gives, BLAKE3, JSON and the order in which a hash map is walked are parameters; files are
-- written as src/storage/local.rs writes them.
pub mod Rebuild
use memo_build.Prelude.{
  ℕ, Option, none, some, List, [], ◌∷◌, map, if◌then◌else◌, length, Text, join, insert,
}
use memo_build.Prelude.Results.{
  Result, ok, err, io_error, Action, and_then, ◌>>=◌, ◌>>◌, pure, throw,
}
use memo_build.Server.Storage.{FileSystem, Files, write_file}

pub record FileEntry : Type 0 where
  pub path : Text
  pub hash : Text
  pub size : ℕ

pub record ArtifactManifest : Type 0 where
  pub files : List FileEntry

-- What a walk of a directory comes to: an error, what is no file, or a file with its path in the directory
-- and its content, if it can be read.
pub data WalkEntry : Type 0 where
  walk_error : WalkEntry
  no_file : WalkEntry
  file : Text → Result Text → WalkEntry

module _ (blake3 : Text → Text) where
  abbrev pub entry_of : Text → Text → FileEntry
  entry_of path data_ = record { path = path; hash = blake3 data_; size = length data_ }

  abbrev add_entry : Text → Result Text → Result (List FileEntry) → Result (List FileEntry)
  add_entry path (err e) rest = err e
  add_entry path (ok data_) (err e) = err e
  add_entry path (ok data_) (ok entries) = ok (entry_of path data_ ∷ entries)

  -- The loop over a walk, which ends at the first error.
  unfoldable pub entries_of : List WalkEntry → Result (List FileEntry)
  entries_of [] = ok []
  entries_of (walk_error ∷ walk) = err io_error
  entries_of (no_file ∷ walk) = entries_of walk
  entries_of (file path data_ ∷ walk) = add_entry path data_ (entries_of walk)

  abbrev as_manifest : Result (List FileEntry) → Result ArtifactManifest
  as_manifest (ok entries) = ok (record { files = entries })
  as_manifest (err e) = err e

  -- A directory is walked; a path to a file, with its name and its content, is the one entry.
  unfoldable pub from_dir : Option (Text × Result Text) → List WalkEntry → Result ArtifactManifest
  unfolding entries_of
  from_dir none walk = as_manifest (entries_of walk)
  from_dir (some (name, data_)) walk = as_manifest (add_entry name data_ (ok []))

  unfoldable pub hash_of : (ArtifactManifest → Text) → ArtifactManifest → Text
  hash_of to_json m = blake3 (to_json m)

module _ {W : Type 0} (fs : FileSystem) (fetcher : Text → Action W (Option Text)) where
  abbrev pub fetch : Text → Action (Files × W) (Option Text)
  fetch hash (files, w) = let (r, w') = fetcher hash w in (r, (files, w'))

  -- `std::fs::write`
  abbrev pub write : Text → Text → Action (Files × W) Text
  write path data_ (files, w) =
      if fs.creatable path
      then (let (r, files') = write_file path data_ (fs.write_limit path) files in (r, (files', w)))
      else (err io_error, (files, w))

  abbrev pub write_found : Text → Option Text → Action (Files × W) Text
  write_found path none = throw io_error
  write_found path (some data_) = write path data_

  -- The loop over the files of a manifest. A file's directory is made with the file.
  unfoldable pub reconstruct_files : Text → List FileEntry → Action (Files × W) (Unit {0})
  unfolding join
  reconstruct_files base_dir [] = pure tt
  reconstruct_files base_dir (e ∷ entries) = do
    found ← fetch e.hash
    write_found (join base_dir e.path) found
    reconstruct_files base_dir entries

  unfoldable pub reconstruct : Text → ArtifactManifest → Action (Files × W) (Unit {0})
  unfolding reconstruct_files
  reconstruct base_dir m = reconstruct_files base_dir m.files

abbrev pub add_to_map : List FileEntry → List (Text × FileEntry) → List (Text × FileEntry)
add_to_map [] file_map = file_map
add_to_map (e ∷ entries) file_map = add_to_map entries (insert e.path e file_map)

-- The entries of `other` take the place of those with the same path.
unfoldable pub merge :
    (List (Text × FileEntry) → List (Text × FileEntry))
    → ArtifactManifest
    → ArtifactManifest
    → ArtifactManifest
unfolding insert
merge iter m other = record {
  files =
      map (λ (e : Text × FileEntry). e.1) (iter (add_to_map other.files (add_to_map m.files [])));
}
