-- ===== src/Cache/Hybrid/Holding.antt =====
-- On a disk that accepts every read and write the local cache holds what it is given, and nothing that
-- the hybrid cache does makes it forget.
use memo_build.Prelude.{
  ℕ, ◌≡◌, refl, true, false, Option, none, some, List, [], ◌∷◌, arith, if◌then◌else◌, length, map,
  Text, text_eq_refl, lookup, lookup-insert, ◌⊎◌, inl, inr, Bool-cases, text_eq,
}
use memo_build.Prelude.Results.{Result, ok, err, io_error, Action, and_then, ◌>>=◌, pure, >>=-eq-ok}
use memo_build.Cache.Chunks.{ArtifactLayer, split_artifact, merge_artifact}
use memo_build.Cache.Local
use memo_build.Cache.Local.{
  CacheEntry, LocalCache, Disk, artifact_name, read_artifact, get_data, save_index,
}
use memo_build.Cache.Remote.{RemoteCache}
use memo_build.Cache.Hybrid.{
  HybridState, on_local, on_remote, fetch_layers, get_artifact, get_remote, get_whole, put_layers,
  put_remote, put_artifact, keep, reconstruct, prefetch, prefetch_artifacts, keep_prefetched,
}
use memo_build.Prelude.Keeps.{Keeps, and_then-Keeps, >>=-Keeps, option-Keeps, if-Keeps}

-- A disk that accepts every read and write.
pub record Accepting (disk : Disk) : Type 0 where
  pub reads : (path : Text) → disk.readable path ≡ true
  pub writes : (path : Text) → disk.writable path ≡ true
  pub indexes : disk.index_writable ≡ true

-- The cache has an entry under the key, and the entry's file.
abbrev pub IsCached : Text → LocalCache → Type 0
IsCached key c =
    (entry : CacheEntry) × (bytes : Text) × (lookup key c.store ≡ some entry)
    × (lookup entry.artifact_path c.files ≡ some bytes)

IsCached-left :
    (key k : Text) (c : LocalCache)
    → (text_eq key k ≡ true) ⊎ IsCached k c
    → text_eq key k ≡ false
    → IsCached k c
IsCached-left key k c (inl same) other = cc (same, other)
IsCached-left key k c (inr cached) other = cached

module _ (disk : Disk) (accepting : Accepting disk) where
  pub get_data-IsCached :
      (key : Text) (c : LocalCache)
      → IsCached key c
      → (bytes : Text) × (get_data disk key c ≡ ok (some bytes))
  unfolding get_data read_artifact
  get_data-IsCached key c (entry, bytes, stored, file) =
      (bytes, ground (arith, stored, file, accepting.reads entry.artifact_path))

  file-IsCached :
      (key bytes : Text) (c : LocalCache) (entry : CacheEntry) (file : Option Text)
      → lookup key c.store ≡ some entry
      → lookup entry.artifact_path c.files ≡ file
      → (elim file as (λ x. Result (Option Text)) [
        | none ↦ ok none
        | some found ↦ if disk.readable entry.artifact_path then ok (some found) else err io_error
      ])
        ≡ ok (some bytes)
      → IsCached key c
  file-IsCached key bytes c entry none stored file e = cc e
  file-IsCached key bytes c entry (some found) stored file e = (entry, found, stored, file)

  entry-IsCached :
      (key bytes : Text) (c : LocalCache) (entry : Option CacheEntry)
      → lookup key c.store ≡ entry
      → (elim entry as (λ x. Result (Option Text)) [
        | none ↦ ok none
        | some e ↦ read_artifact disk c e
      ])
        ≡ ok (some bytes)
      → IsCached key c
  unfolding read_artifact
  entry-IsCached key bytes c none stored e = cc e
  entry-IsCached key bytes c (some entry) stored e =
      file-IsCached key bytes c entry (lookup entry.artifact_path c.files) stored refl e

  pub get_data-some :
      (key bytes : Text) (c : LocalCache) → get_data disk key c ≡ ok (some bytes) → IsCached key c
  unfolding get_data
  get_data-some key bytes c e = entry-IsCached key bytes c (lookup key c.store) refl e

  put-IsCached :
      (now : ℕ) (key bytes k : Text) (c : LocalCache)
      → (text_eq key k ≡ true) ⊎ IsCached k c
      → IsCached k (Local.put disk now key bytes c).1
  unfolding Local.put save_index
  put-IsCached now key bytes k c h =
      rw (accepting.writes, accepting.indexes)
        (let path = artifact_name key in
          let entry : CacheEntry = record {
            cache_key = key;
            created_at = now;
            artifact_path = path;
            size = length bytes;
          } in
          let stored = lookup-insert key k entry c.store in
          elim (Bool-cases (text_eq key k)) [
            | inl same ↦ (
              entry,
              bytes,
              ground (arith, stored, same),
              ground (arith, lookup-insert path path bytes c.files, text_eq_refl path),
            )
            | inr other ↦
                let (old, found, at, file) = IsCached-left key k c h other in
                elim (Bool-cases (text_eq path old.artifact_path)) [
                  | inl over ↦ (
                    old,
                    bytes,
                    ground (arith, stored, other, at),
                    ground (arith, lookup-insert path old.artifact_path bytes c.files, over),
                  )
                  | inr apart ↦ (
                    old,
                    found,
                    ground (arith, stored, other, at),
                    ground (arith, lookup-insert path old.artifact_path bytes c.files, apart, file),
                  )
                ]
          ])

module _ {R : Type 0} (disk : Disk) (accepting : Accepting disk) (blake3_hex : Text → Text)
    (now : ℕ) (remote : Option (RemoteCache R)) where
  -- The artifact of the key is in the local cache.
  abbrev pub IsHeld : Text → HybridState R → Type 0
  IsHeld key s = IsCached key s.local_cache

  -- What only touches the remote cache.
  on_remote-Keeps : {A : Type 0} (m : Action R A) → Keeps IsHeld (on_remote m)
  on_remote-Keeps m k s held = held

  put_local-Keeps : (key bytes : Text) → Keeps IsHeld (on_local (Local.put disk now key bytes))
  put_local-Keeps key bytes k s held = put-IsCached disk accepting now key bytes k _ (inr held)

  put_local-IsHeld :
      (key bytes : Text) (s : HybridState R)
      → IsHeld key (on_local (Local.put disk now key bytes) s).1
  put_local-IsHeld key bytes s =
      put-IsCached disk accepting now key bytes key _ (inl (text_eq_refl key))

  put_remote-Keeps :
      (to : Option (RemoteCache R)) (key bytes : Text)
      → Keeps IsHeld (put_remote blake3_hex disk now to key bytes)
  unfolding put_remote
  put_remote-Keeps none key bytes = λ k s held. held
  put_remote-Keeps (some r) key bytes =
      let layers = split_artifact blake3_hex bytes in
      let register =
        r.register_node_layers key (map (λ (l : ArtifactLayer). l.hash) layers) (length bytes) in
      >>=-Keeps IsHeld (on_remote (put_layers r layers)) _ (on_remote-Keeps (put_layers r layers))
        (λ u. on_remote-Keeps register)

  pub put_artifact-IsHeld :
      (key bytes : Text) (s : HybridState R)
      → IsHeld key (put_artifact blake3_hex disk now remote key bytes s).1
  unfolding put_artifact
  put_artifact-IsHeld key bytes s =
      let (r, s') = on_local (Local.put disk now key bytes) s in
      and_then-Keeps IsHeld r _ key s' (λ u. put_remote-Keeps remote key bytes)
        (put_local-IsHeld key bytes s)

  keep-Keeps : (key bytes : Text) → Keeps IsHeld (keep blake3_hex disk now key bytes)
  keep-Keeps key bytes =
      >>=-Keeps IsHeld (on_local (Local.put disk now key bytes)) _ (put_local-Keeps key bytes)
        (λ u k s held. held)

  pub put_artifact-Keeps :
      (key bytes : Text) → Keeps IsHeld (put_artifact blake3_hex disk now remote key bytes)
  unfolding put_artifact
  put_artifact-Keeps key bytes =
      >>=-Keeps IsHeld (on_local (Local.put disk now key bytes)) _ (put_local-Keeps key bytes)
        (λ u. put_remote-Keeps remote key bytes)

  whole-Keeps :
      (r : RemoteCache R) (key : Text) → Keeps IsHeld (get_whole blake3_hex disk now r key)
  unfolding get_whole
  whole-Keeps r key =
      >>=-Keeps IsHeld (on_remote (r.get key)) _ (on_remote-Keeps (r.get key))
        (λ found. option-Keeps IsHeld found _ _ (λ k s held. held) (λ bytes. keep-Keeps key bytes))

  reconstruct-Keeps :
      (r : RemoteCache R) (key : Text) (layers : List Text)
      → Keeps IsHeld (reconstruct blake3_hex disk now r key layers)
  reconstruct-Keeps r key layers =
      >>=-Keeps IsHeld (on_remote (fetch_layers r layers)) _
        (on_remote-Keeps (fetch_layers r layers)) (λ found. keep-Keeps key (merge_artifact found))

  get_remote-Keeps :
      (from : Option (RemoteCache R)) (key : Text)
      → Keeps IsHeld (get_remote blake3_hex disk now from key)
  unfolding get_remote
  get_remote-Keeps none key = λ k s held. held
  get_remote-Keeps (some r) key =
      >>=-Keeps IsHeld (on_remote (r.get_node_layers key)) _
        (on_remote-Keeps (r.get_node_layers key))
        (λ found.
          option-Keeps IsHeld found _ _ (whole-Keeps r key)
            (λ layers. reconstruct-Keeps r key layers))

  pub get_artifact-Keeps : (key : Text) → Keeps IsHeld (get_artifact blake3_hex disk now remote key)
  unfolding get_artifact
  get_artifact-Keeps key =
      >>=-Keeps IsHeld (on_local (λ l. (get_data disk key l, l))) _ (λ k s held. held)
        (λ found.
          option-Keeps IsHeld found _ _ (get_remote-Keeps remote key) (λ bytes k s held. held))

  pub get_artifact-found :
      (key : Text) (s : HybridState R)
      → IsHeld key s
      → (bytes : Text) × ((get_artifact blake3_hex disk now remote key s).0 ≡ ok (some bytes))
  unfolding get_artifact
  get_artifact-found key s held =
      let (bytes, found) = get_data-IsCached disk accepting key s.local_cache held in
      (bytes, rw found refl)

  keep-IsHeld :
      (key bytes : Text) (s : HybridState R) → IsHeld key (keep blake3_hex disk now key bytes s).1
  keep-IsHeld key bytes s =
      let (r, s') = on_local (Local.put disk now key bytes) s in
      and_then-Keeps IsHeld r _ key s' (λ u k t held. held) (put_local-IsHeld key bytes s)

  -- What a step finds, it holds.
  abbrev Finds : Text → Action (HybridState R) (Option Text) → Type 0
  Finds key m = (s : HybridState R) (bytes : Text) → (m s).0 ≡ ok (some bytes) → IsHeld key (m s).1

  >>=-Finds :
      {A : Type 0} (key : Text) (m : Action (HybridState R) A)
      (f : A → Action (HybridState R) (Option Text))
      → ((a : A) → Finds key (f a))
      → Finds key (m >>= f)
  >>=-Finds key m f rest s bytes e =
      let (a, done, e') = >>=-eq-ok m f s e in rw done (rest a (m s).1 bytes e')

  option-Finds :
      {A : Type 0} (key : Text) (o : Option A) (m : Action (HybridState R) (Option Text))
      (f : A → Action (HybridState R) (Option Text))
      → Finds key m
      → ((a : A) → Finds key (f a))
      → Finds key (elim o [ none ↦ m | some a ↦ f a ])
  option-Finds key none m f absent present = absent
  option-Finds key (some a) m f absent present = present a

  get_remote-Finds :
      (from : Option (RemoteCache R)) (key : Text)
      → Finds key (get_remote blake3_hex disk now from key)
  unfolding get_remote get_whole
  get_remote-Finds none key = λ s bytes e. cc e
  get_remote-Finds (some r) key = >>=-Finds key (on_remote (r.get_node_layers key)) _ (λ found.
      option-Finds key found _ _
        (>>=-Finds key (on_remote (r.get key)) _ (λ whole.
          option-Finds key whole _ _ (λ s bytes e. cc e) (λ b s bytes e. keep-IsHeld key b s)))
        (λ layers.
          >>=-Finds key (on_remote (fetch_layers r layers)) _
            (λ found s bytes e. keep-IsHeld key (merge_artifact found) s)))

  -- What is done with the answer of the local cache.
  answer-IsHeld :
      (key bytes : Text) (s : HybridState R) (found : Result (Option Text))
      → get_data disk key s.local_cache ≡ found
      → (and_then found
          (λ f. elim f [
            | none ↦ get_remote blake3_hex disk now remote key
            | some b ↦ pure (some b)
          ])
          s).0
        ≡ ok (some bytes)
      → IsHeld key
          (and_then found
            (λ f. elim f [
              | none ↦ get_remote blake3_hex disk now remote key
              | some b ↦ pure (some b)
            ])
            s).1
  answer-IsHeld key bytes s (ok none) local e = get_remote-Finds remote key s bytes e
  answer-IsHeld key bytes s (ok (some b)) local e =
      get_data-some disk accepting key b s.local_cache local
  answer-IsHeld key bytes s (err x) local e = cc e

  pub get_artifact-IsHeld :
      (key bytes : Text) (s : HybridState R)
      → (get_artifact blake3_hex disk now remote key s).0 ≡ ok (some bytes)
      → IsHeld key (get_artifact blake3_hex disk now remote key s).1
  unfolding get_artifact
  get_artifact-IsHeld key bytes s e =
      answer-IsHeld key bytes s (get_data disk key s.local_cache) refl e

  keep_prefetched-Keeps :
      (hash : Text) (found : Result (Option Text))
      → Keeps IsHeld (keep_prefetched blake3_hex disk now hash found)
  keep_prefetched-Keeps hash (ok none) = λ k s held. held
  keep_prefetched-Keeps hash (ok (some bytes)) = λ k s held. put_local-Keeps hash bytes k s held
  keep_prefetched-Keeps hash (err e) = λ k s held. held

  prefetch-Keeps :
      (from : Option (RemoteCache R)) (hash : Text)
      → Keeps IsHeld (prefetch blake3_hex disk now from hash)
  unfolding prefetch
  prefetch-Keeps none hash k s held = held
  prefetch-Keeps (some r) hash k s held =
      let (found, s') = on_remote (r.get hash) s in keep_prefetched-Keeps hash found k s' held

  pub prefetch_artifacts-Keeps :
      (hs : List Text) → Keeps IsHeld (prefetch_artifacts blake3_hex disk now remote hs)
  unfolding prefetch_artifacts
  prefetch_artifacts-Keeps [] k s held = held
  prefetch_artifacts-Keeps (hash ∷ hs) k s held = prefetch_artifacts-Keeps hs k _ (
      if-Keeps IsHeld (Local.exists hash s.local_cache) _ _ (λ k s held. held)
        (prefetch-Keeps remote hash) k s held)
