-- ===== src/Cache/Manifest/Rebuild.antt =====
-- src/cache/utils.rs: a directory, rebuilt from its manifest and a cache that has its files.
use memo_build.Prelude.{
  ◌≡◌, refl, ◌∙◌, Bool, true, false, not, ◌&&◌, Option, none, some, List, [], ◌∷◌, arith, Text,
  text_eq, text_eq_refl, join, lookup, insert, lookup-insert,
}
use memo_build.Prelude.Results.{ok, Action}
use memo_build.Server.Storage.{FileSystem, Files}
use memo_build.Server.Storage.Blobs.{IsReliable}
use memo_build.Cache.Manifest.{
  FileEntry, ArtifactManifest, WalkEntry, file, entry_of, entries_of, from_dir, reconstruct_files,
  reconstruct,
}

-- A walk that finds these files, with their paths and contents.
unfoldable pub walk_of : List (Text × Text) → List WalkEntry
walk_of [] = []
walk_of ((path, data_) ∷ files) = file path (ok data_) ∷ walk_of files

abbrev pub entries : (Text → Text) → List (Text × Text) → List FileEntry
entries blake3 [] = []
entries blake3 ((path, data_) ∷ files) = entry_of blake3 path data_ ∷ entries blake3 files

entries_of-walk_of :
    (blake3 : Text → Text) (files : List (Text × Text))
    → entries_of blake3 (walk_of files) ≡ ok (entries blake3 files)
unfolding entries_of walk_of
entries_of-walk_of blake3 [] = refl
entries_of-walk_of blake3 ((path, data_) ∷ files) = rw (entries_of-walk_of blake3 files) refl

module _ (base_dir : Text) where
  -- No file of the list is written to the path.
  unfoldable pub is_free : Text → List (Text × Text) → Bool
  is_free path [] = true
  is_free path ((p, data_) ∷ files) = not (text_eq (join base_dir p) path) && is_free path files

  -- The files are written to different paths.
  unfoldable pub all_distinct : List (Text × Text) → Bool
  unfolding is_free
  all_distinct [] = true
  all_distinct ((p, data_) ∷ files) = is_free (join base_dir p) files && all_distinct files

  written : List (Text × Text) → Files → Files
  written [] disk = disk
  written ((p, data_) ∷ files) disk = written files (insert (join base_dir p) data_ disk)

  -- Each of the files is on the disk, with its content.
  abbrev pub AllThere : List (Text × Text) → Files → Type 0
  AllThere [] disk = Unit
  AllThere ((p, data_) ∷ files) disk =
      (lookup (join base_dir p) disk ≡ some data_) × AllThere files disk

  lookup-written :
      (path : Text) (files : List (Text × Text)) (disk : Files)
      → is_free path files ≡ true
      → lookup path (written files disk) ≡ lookup path disk
  unfolding is_free written
  lookup-written path [] disk free = refl
  lookup-written path ((p, data_) ∷ files) disk free =
      let other : text_eq (join base_dir p) path ≡ false = ground arith in
      lookup-written path files (insert (join base_dir p) data_ disk) (ground arith)
      ∙ lookup-insert (join base_dir p) path data_ disk
      ∙ rw other refl

  written-AllThere :
      (files : List (Text × Text)) (disk : Files)
      → all_distinct files ≡ true
      → AllThere files (written files disk)
  unfolding all_distinct written
  written-AllThere [] disk distinct = tt
  written-AllThere ((p, data_) ∷ files) disk distinct =
      let path = join base_dir p in
      (
        lookup-written path files (insert path data_ disk) (ground arith)
            ∙ lookup-insert path path data_ disk
            ∙ rw (text_eq_refl path) refl,
        written-AllThere files (insert path data_ disk) (ground arith),
      )

module _ {W : Type 0} (fs : FileSystem) (fetcher : Text → Action W (Option Text))
    (blake3 : Text → Text) where
  -- The cache has each of the files under its hash, and a question to it changes nothing.
  abbrev pub Holds : List (Text × Text) → Type 0
  Holds [] = Unit
  Holds ((p, data_) ∷ files) =
      ((w : W) → fetcher (blake3 data_) w ≡ (ok (some data_), w)) × Holds files

  reconstruct_files-written :
      (base_dir : Text) (files : List (Text × Text)) (disk : Files) (w : W)
      → IsReliable fs
      → Holds files
      → reconstruct_files fs fetcher base_dir (entries blake3 files) (disk, w)
        ≡ (ok tt, (written base_dir files disk, w))
  unfolding reconstruct_files written
  reconstruct_files-written base_dir [] disk w reliable holds = refl
  reconstruct_files-written base_dir ((p, data_) ∷ files) disk w reliable holds =
      let path = join base_dir p in
      rw (holds.0 w, reliable.creates path, reliable.writes path)
        (reconstruct_files-written base_dir files (insert path data_ disk) w reliable holds.1)

-- Where the file system answers every call, a cache has the files of a directory under their hashes, and
-- the files' paths in a base directory are all different, rebuilding the directory there from its
-- manifest succeeds, and each file is then there with its content, whatever was there before.
pub reconstruct-from_dir :
    {W : Type 0} (fs : FileSystem) (fetcher : Text → Action W (Option Text)) (blake3 : Text → Text)
    (base_dir : Text) (files : List (Text × Text)) (disk : Files) (w : W)
    → IsReliable fs
    → Holds fs fetcher blake3 files
    → all_distinct base_dir files ≡ true
    → (m : ArtifactManifest) × (disk' : Files) × (from_dir blake3 none (walk_of files) ≡ ok m)
      × (reconstruct fs fetcher base_dir m (disk, w) ≡ (ok tt, (disk', w)))
      × AllThere base_dir files disk'
unfolding from_dir reconstruct
reconstruct-from_dir fs fetcher blake3 base_dir files disk w reliable holds distinct = (
  record { files = entries blake3 files },
  written base_dir files disk,
  rw (entries_of-walk_of blake3 files) refl,
  reconstruct_files-written fs fetcher blake3 base_dir files disk w reliable holds,
  written-AllThere base_dir files disk distinct,
)
