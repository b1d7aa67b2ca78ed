-- ===== src/Cache/Hybrid.antt =====
-- src/cache/hybrid.rs, `HybridCache`: the local cache in front of the remote one. The prefetch
-- runs to its end where it is started; `upload_manifest_and_files`, which reads the file system, is left
-- out.
pub mod Holding
use memo_build.Prelude.{
  ℕ, Bool, true, false, Option, none, some, List, [], ◌∷◌, ◌++◌, if◌then◌else◌, map, length, Text,
}
use memo_build.Prelude.Results.{
  Result, ok, err, integrity_failure, Action, and_then, ◌>>=◌, ◌>>◌, pure, throw, ignore,
}
use memo_build.Cache.Chunks.{ArtifactLayer, split_artifact, merge_artifact}
use memo_build.Cache.Local
use memo_build.Cache.Local.{LocalCache, Disk, get_data}
use memo_build.Cache.Remote.{RemoteCache}

pub record HybridState (R : Type 0) : Type 0 where
  pub local_cache : LocalCache
  pub shared : R

module _ {R : Type 0} {A : Type 0} where
  -- A step of one of the two caches.
  abbrev pub on_local : Action LocalCache A → Action (HybridState R) A
  on_local m s = let (r, l) = m s.local_cache in (r, record s { local_cache = l })

  abbrev pub on_remote : Action R A → Action (HybridState R) A
  on_remote m s = let (r, t) = m s.shared in (r, record s { shared = t })

module _ {R : Type 0} where
  -- The loop over the layers of a node.
  unfoldable pub fetch_layers : RemoteCache R → List Text → Action R (List Text)
  fetch_layers remote [] = pure []
  fetch_layers remote (hash ∷ hashes) = do
    found ← remote.get_layer hash
    elim found [
      | none ↦ throw integrity_failure
      | some layer ↦ do rest ← fetch_layers remote hashes; pure (layer ∷ rest)
    ]

  abbrev pub put_missing : RemoteCache R → ArtifactLayer → Action R (Unit {0})
  put_missing remote layer = do
    present ← remote.has_layer layer.hash
    if present then pure tt else remote.put_layer layer.hash layer.content

  -- The loop over the layers of an artifact.
  unfoldable pub put_layers : RemoteCache R → List ArtifactLayer → Action R (Unit {0})
  put_layers remote [] = pure tt
  put_layers remote (layer ∷ layers) = do put_missing remote layer; put_layers remote layers

module _ {R : Type 0} (blake3_hex : Text → Text) (disk : Disk) (now : ℕ) where
  abbrev keep : Text → Text → Action (HybridState R) (Option Text)
  keep key bytes = do on_local (Local.put disk now key bytes); pure (some bytes)

  abbrev reconstruct : RemoteCache R → Text → List Text → Action (HybridState R) (Option Text)
  reconstruct remote key hashes = do
    layers ← on_remote (fetch_layers remote hashes)
    keep key (merge_artifact layers)

  -- Artifacts that are not layered.
  unfoldable pub get_whole : RemoteCache R → Text → Action (HybridState R) (Option Text)
  get_whole remote key = do
    found ← on_remote (remote.get key)
    elim found [ none ↦ pure none | some bytes ↦ keep key bytes ]

  unfoldable pub get_remote : Option (RemoteCache R) → Text → Action (HybridState R) (Option Text)
  unfolding get_whole
  get_remote none key = pure none
  get_remote (some remote) key = do
    found ← on_remote (remote.get_node_layers key)
    elim found [ none ↦ get_whole remote key | some hashes ↦ reconstruct remote key hashes ]

  unfoldable pub get_artifact : Option (RemoteCache R) → Text → Action (HybridState R) (Option Text)
  unfolding get_remote
  get_artifact remote key = do
    found ← on_local (λ l. (get_data disk key l, l))
    elim found [ none ↦ get_remote remote key | some bytes ↦ pure (some bytes) ]

  unfoldable pub put_remote :
      Option (RemoteCache R) → Text → Text → Action (HybridState R) (Unit {0})
  put_remote none key bytes = pure tt
  put_remote (some remote) key bytes = do
    let layers = split_artifact blake3_hex bytes
    on_remote (put_layers remote layers)
    on_remote (
        remote.register_node_layers key (map (λ (l : ArtifactLayer). l.hash) layers) (length bytes))

  unfoldable pub put_artifact :
      Option (RemoteCache R) → Text → Text → Action (HybridState R) (Unit {0})
  unfolding put_remote
  put_artifact remote key bytes = do
    on_local (Local.put disk now key bytes)
    put_remote remote key bytes

  abbrev keep_prefetched : Text → Result (Option Text) → Action (HybridState R) (Unit {0})
  keep_prefetched hash (ok (some bytes)) = ignore (on_local (Local.put disk now hash bytes))
  keep_prefetched hash (ok none) = pure tt
  keep_prefetched hash (err e) = pure tt

  -- The task of one hash: what the remote cache has under the hash itself is stored, and errors are
  -- only reported.
  unfoldable pub prefetch : Option (RemoteCache R) → Text → Action (HybridState R) (Unit {0})
  prefetch none hash s = (ok tt, s)
  prefetch (some remote) hash s =
      let (found, s') = on_remote (remote.get hash) s in keep_prefetched hash found s'

  -- The tasks run to their end in the order in which they are spawned.
  unfoldable pub prefetch_artifacts :
      Option (RemoteCache R) → List Text → Action (HybridState R) (Unit {0})
  unfolding prefetch
  prefetch_artifacts remote [] s = (ok tt, s)
  prefetch_artifacts remote (hash ∷ hashes) s =
      let (r, s') = (if Local.exists hash s.local_cache then pure tt else prefetch remote hash) s in
      prefetch_artifacts remote hashes s'
