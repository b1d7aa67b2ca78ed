-- ===== src/Cache/Local/Laws.antt =====
-- Reads after writes of the cache directory, in one run and after a restart.
use memo_build.Prelude.{ℕ, ◌≡◌, true, some, arith, length, Text, text_eq_refl, lookup-insert}
use memo_build.Prelude.Results.{ok}
use memo_build.Cache.Local.{
  CacheEntry, LocalCache, Disk, reopen, artifact_name, get_data, put, exists,
}

module _ (disk : Disk) (now : ℕ) (key bytes : Text) (c : LocalCache)
    (done : (put disk now key bytes c).0 ≡ ok tt)
    (readable : disk.readable (artifact_name key) ≡ true) where
  -- After a successful `put` of an artifact whose file can be read, the artifact is found, in the same
  -- run and by a later run that reads the index from the disk.
  pub get_data-put :
      (get_data disk key (put disk now key bytes c).1 ≡ ok (some bytes))
      × (get_data disk key (reopen (put disk now key bytes c).1) ≡ ok (some bytes))
      × (exists key (put disk now key bytes c).1 ≡ true)
  unfolding put get_data reopen exists
  get_data-put =
      let entry : CacheEntry = record {
        cache_key = key;
        created_at = now;
        artifact_path = artifact_name key;
        size = length bytes;
      } in
      ground (
        arith,
        text_eq_refl key,
        text_eq_refl (artifact_name key),
        lookup-insert key key entry c.store,
        lookup-insert (artifact_name key) (artifact_name key) bytes c.files,
      )
