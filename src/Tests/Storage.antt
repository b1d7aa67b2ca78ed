-- ===== src/Tests/Storage.antt =====
-- Blobs in a directory whose file system answers every call, and in one whose writes stop midway.
use memo_build.Prelude.{
  ℕ, ◌++◌, drop, join, ◌≡◌, refl, true, none, some, Option, List, [], ◌∷◌, Text, codes, lookup,
}
use memo_build.Prelude.Results.{ok, Action}
use memo_build.Server.Storage.{FileSystem, Files, get_sharded_path}
use memo_build.Cache.Manifest.{ArtifactManifest, from_dir, reconstruct}
use memo_build.Cache.Manifest.Rebuild.{walk_of, all_distinct, AllThere, reconstruct-from_dir}
use memo_build.Server.Storage.Blobs.{
  StorageCall, put_call, get_call, exists_call, delete_call, all_plain, call_name, answers,
  on_files, on_blobs, IsReliable, answers-on_files,
}

abbrev pub reliable : FileSystem
reliable = record {
  creatable = λ p. true;
  write_limit = λ p. none;
  readable = λ p. true;
  removable = λ p. true;
}

-- A disk that is full after three bytes of each file.
abbrev full : FileSystem
full = record reliable { write_limit = λ p. some 3 }

pub reliable-IsReliable : IsReliable reliable
reliable-IsReliable = record {
  creates = λ p. refl;
  writes = λ p. refl;
  reads = λ p. refl;
  removes = λ p. refl;
}

abbrev pub base_dir : Text
base_dir = codes "/blobs"

abbrev calls : List StorageCall
calls =
    put_call (codes "abcd") (codes "one")
    ∷ put_call (codes "abcd") (codes "two")
    ∷ get_call (codes "abcd")
    ∷ delete_call (codes "abcd")
    ∷ exists_call (codes "abcd")
    ∷ []

calls_are_plain : all_plain calls ≡ true
unfolding all_plain call_name
calls_are_plain = refl

answers-on_files_example :
    answers (on_files reliable base_dir) calls [] ≡ answers (on_blobs base_dir) calls []
answers-on_files_example =
    answers-on_files reliable base_dir calls reliable-IsReliable refl calls_are_plain

abbrev path : Text
path = get_sharded_path base_dir (codes "abcd")

abbrev no_files : Files
no_files = []

no_file : lookup path no_files ≡ none
unfolding lookup
no_file = refl

abbrev blake3 : Text → Text
blake3 data_ = codes "hash of " ++ data_

-- A cache that finds a content in its hash.
abbrev fetcher : Text → Action ℕ (Option Text)
fetcher hash w = (ok (some (drop 8 hash)), w)

abbrev two_files : List (Text × Text)
two_files = (codes "a.txt", codes "one") ∷ (codes "sub/b.txt", codes "two") ∷ []

are_distinct : all_distinct base_dir two_files ≡ true
unfolding all_distinct join
are_distinct = refl

reconstruct-from_dir_example :
    (m : ArtifactManifest) × (disk : Files) × (from_dir blake3 none (walk_of two_files) ≡ ok m)
    × (reconstruct reliable fetcher base_dir m ([], 0) ≡ (ok tt, (disk, 0)))
    × AllThere base_dir two_files disk
reconstruct-from_dir_example =
    reconstruct-from_dir reliable fetcher blake3 base_dir two_files [] 0 reliable-IsReliable
      (λ w. refl, (λ w. refl, tt)) are_distinct
