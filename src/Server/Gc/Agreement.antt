-- ===== src/Server/Gc/Agreement.antt =====
-- src/gc.rs against src/server/mod.rs: the sweep and the `/gc` route do the same.
use memo_build.Prelude.{
  ℕ, ◌+◌, ◌<◌, ◌≡◌, refl, ap, true, false, Option, none, some, List, [], ◌∷◌, arith, if◌then◌else◌,
  ltb, Text,
}
use memo_build.Prelude.Results.{Result, ok, err}
use memo_build.Server.Storage.{ArtifactStorage}
use memo_build.Server.Metadata.{CacheRow}
use memo_build.Server.Handlers.{
  MetadataStore, AppState, ok_200, deleted_counts, delete_found, delete_entries, gc_cache,
}
use memo_build.Server.Gc.{
  GarbageCollector, evict, count_evicted, sweep_entries, sweep_by_age, sweep,
}

module _ {S M : Type 0} (store : ArtifactStorage S) (meta : MetadataStore M)
    (blake3 : Text → Text) where
  -- The count and the state of a run of the sweep's loop and of the route's loop.
  abbrev SameRun : (ℕ × ℕ) × AppState S M → ℕ × AppState S M → Type 0
  SameRun a b = (a.0.0 ≡ b.0) × (a.1 ≡ b.1)

  round-SameRun :
      (h : Text) (r : Result (Option CacheRow)) (hs : List Text) (s : AppState S M)
      → ((s' : AppState S M)
          → SameRun
              (sweep_entries store meta blake3 hs s')
              (delete_entries store meta blake3 hs s'))
      → let (evicted, s1) = evict store meta blake3 h r s in
        let (counts, last1) = sweep_entries store meta blake3 hs s1 in
        let (was_deleted, s2) = delete_found store meta blake3 h r s in
        let (n, last2) = delete_entries store meta blake3 hs s2 in
        SameRun
          (count_evicted store meta blake3 evicted counts, last1)
          (if was_deleted then n + 1 else n, last2)
  round-SameRun h (ok (some entry)) hs s ih =
      let (same, last) = ih (delete_found store meta blake3 h (ok (some entry)) s).1 in
      (ap (λ n. n + 1) same, last)
  round-SameRun h (ok none) hs s ih = ih s
  round-SameRun h (err e) hs s ih = ih s

  sweep_entries-SameRun :
      (hashes : List Text) (st : AppState S M)
      → SameRun
          (sweep_entries store meta blake3 hashes st)
          (delete_entries store meta blake3 hashes st)
  unfolding sweep_entries delete_entries
  sweep_entries-SameRun [] st = (refl, refl)
  sweep_entries-SameRun (hash ∷ hashes) st =
      let (r, m) = meta.get hash st.metadata in
      round-SameRun hash r hashes (record st { metadata = m }) (sweep_entries-SameRun hashes)

-- Where the query of the old entries gives no error, a sweep that no other runs beside and whose policy
-- has an age of at least a day leaves the storage and the metadata as a request to `/gc` with
-- that age does, and its result has the counts of the route's answer, whatever the storage and
-- the metadata store are and whatever their other calls answer.
pub sweep-gc_cache :
    {S M : Type 0} (store : ArtifactStorage S) (meta : MetadataStore M) (blake3 : Text → Text)
    (now : Text) (duration : ℕ) (gc : GarbageCollector) (st : AppState S M) (hashes : List Text)
    → gc.running ≡ false
    → 0 < gc.policy.max_age_days
    → (meta.get_old_entries gc.policy.max_age_days st.metadata).0 ≡ ok hashes
    → let (result, gc', swept) = sweep store meta blake3 now duration gc st in
      gc_cache store meta blake3 gc.policy.max_age_days st
      ≡ ((ok_200, deleted_counts result.deleted_artifacts result.deleted_layers), swept)
unfolding sweep sweep_by_age gc_cache
sweep-gc_cache store meta blake3 now duration gc st hashes idle aged found =
    let (r, m) = meta.get_old_entries gc.policy.max_age_days st.metadata in
    let (same, last) =
      sweep_entries-SameRun store meta blake3 hashes (record st { metadata = m }) in
    let due : ltb 0 gc.policy.max_age_days ≡ true = ground arith in
    rw (idle, due, found, same, last) refl
