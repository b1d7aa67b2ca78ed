-- ===== src/Tests/Caches.antt =====
-- An artifact in layers, and in the local cache.
use memo_build.Prelude.{◌≡◌, refl, true, none, some, [], map, Text, codes, lookup}
use memo_build.Prelude.Results.{ok}
use memo_build.Cache.Chunks.{ArtifactLayer, split_artifact, merge_artifact, merge-split_artifact}
use memo_build.Cache.Local.{LocalCache, Disk, reopen, get_data, put, exists}
use memo_build.Cache.Local.Laws.{get_data-put}

-- A digest that tells all contents apart.
abbrev blake3 : Text → Text
blake3 bytes = bytes

abbrev disk : Disk
disk = record { readable = λ path. true; writable = λ path. true; index_writable = true }

abbrev empty : LocalCache
empty = record { store = []; files = []; index = [] }

abbrev key : Text
key = codes "ab12"

abbrev bytes : Text
bytes = codes "artifact"

written : (put disk 7 key bytes empty).0 ≡ ok tt
unfolding put
written = refl

missing : get_data disk key empty ≡ ok none
unfolding get_data lookup
missing = refl

merge-split_artifact_example :
    merge_artifact (map (λ (l : ArtifactLayer). l.content) (split_artifact blake3 bytes)) ≡ bytes
merge-split_artifact_example = merge-split_artifact blake3 bytes

get_data-put_example :
    (get_data disk key (put disk 7 key bytes empty).1 ≡ ok (some bytes))
    × (get_data disk key (reopen (put disk 7 key bytes empty).1) ≡ ok (some bytes))
    × (exists key (put disk 7 key bytes empty).1 ≡ true)
get_data-put_example = get_data-put disk 7 key bytes empty written refl
