-- ===== src/Server/Gc.antt =====
-- src/gc.rs: the garbage collector, on any storage and any metadata store. The clock is a parameter;
-- the defaults of the policy, which come from the environment, and the background loop, whose tick
-- does nothing, are left out.
pub mod Agreement
use memo_build.Prelude.{
  ℕ, ◌+◌, ◌%◌, ◌^◌, Bool, true, false, Option, none, some, List, [], ◌∷◌, if◌then◌else◌, ltb, Text,
}
use memo_build.Prelude.Results.{Result, ok, err}
use memo_build.Server.Storage.{ArtifactStorage}
use memo_build.Server.Metadata.{CacheRow}
use memo_build.Server.Handlers.{
  MetadataStore, AppState, on_storage, on_metadata, delete_layers, delete_unused,
}

pub record GcPolicy : Type 0 where
  pub max_age_days : ℕ
  pub max_size_bytes : ℕ
  pub interval_secs : ℕ

pub record GcStatus : Type 0 where
  pub last_run : Option Text
  pub last_duration_ms : ℕ
  pub total_deleted : ℕ
  pub total_runs : ℕ
  pub bytes_freed : ℕ

pub record GarbageCollector : Type 0 where
  pub policy : GcPolicy
  pub status : GcStatus
  pub running : Bool
  pub total_deleted : ℕ
  pub total_runs : ℕ
  pub bytes_freed : ℕ

pub record GcRunResult : Type 0 where
  pub deleted_artifacts : ℕ
  pub deleted_layers : ℕ
  pub freed_bytes : ℕ
  pub duration_ms : ℕ

abbrev pub new_collector : GcPolicy → GarbageCollector
new_collector policy = record {
  policy = policy;
  status = record {
    last_run = none;
    last_duration_ms = 0;
    total_deleted = 0;
    total_runs = 0;
    bytes_freed = 0;
  };
  running = false;
  total_deleted = 0;
  total_runs = 0;
  bytes_freed = 0;
}

abbrev pub no_result : GcRunResult
no_result = record { deleted_artifacts = 0; deleted_layers = 0; freed_bytes = 0; duration_ms = 0 }

-- `fetch_add` on an `AtomicU64`.
abbrev pub fetch_add : ℕ → ℕ → ℕ
fetch_add total n = (total + n) % 2 ^ 64

-- The counters and the status after a sweep that deleted `deleted` entries and layers.
abbrev pub finish : Text → ℕ → ℕ → ℕ → GarbageCollector → GarbageCollector
finish now duration deleted freed gc =
    let total_deleted = fetch_add gc.total_deleted deleted in
    let total_runs = fetch_add gc.total_runs 1 in
    let bytes_freed = fetch_add gc.bytes_freed freed in
    record gc {
      running = false;
      total_deleted = total_deleted;
      total_runs = total_runs;
      bytes_freed = bytes_freed;
      status = record {
        last_run = some now;
        last_duration_ms = duration;
        total_deleted = total_deleted;
        total_runs = total_runs;
        bytes_freed = bytes_freed;
      };
    }

-- What the loops have counted.
pub record Counts : Type 0 where
  pub artifacts : ℕ
  pub layers : ℕ
  pub freed : ℕ

module _ {S M : Type 0} (store : ArtifactStorage S) (meta : MetadataStore M)
    (blake3 : Text → Text) where
  -- A round over the old entries: the size of the entry that was deleted, and the state after it.
  abbrev pub evict : Text → Result (Option CacheRow) → AppState S M → Option ℕ × AppState S M
  evict hash (ok (some entry)) st =
      (some entry.size, (on_metadata (meta.delete hash) (on_storage (store.delete hash) st).1).1)
  evict hash (ok none) st = (none, st)
  evict hash (err e) st = (none, st)

  abbrev pub count_evicted : Option ℕ → ℕ × ℕ → ℕ × ℕ
  count_evicted none (n, freed) = (n, freed)
  count_evicted (some size) (n, freed) = (n + 1, size + freed)

  unfoldable pub sweep_entries : List Text → AppState S M → (ℕ × ℕ) × AppState S M
  sweep_entries [] st = ((0, 0), st)
  sweep_entries (hash ∷ hashes) st =
      let (r, st') = on_metadata (meta.get hash) st in
      let (evicted, st'') = evict hash r st' in
      let (counts, last) = sweep_entries hashes st'' in (count_evicted evicted counts, last)

  abbrev pub sweep_old : Result (List Text) → AppState S M → (ℕ × ℕ) × AppState S M
  sweep_old (ok hashes) st = sweep_entries hashes st
  sweep_old (err e) st = ((0, 0), st)

  -- The part of the sweep for a policy with an age.
  unfoldable pub sweep_by_age : ℕ → AppState S M → Counts × AppState S M
  unfolding sweep_entries delete_layers
  sweep_by_age days st =
      let (old, st1) = on_metadata (meta.get_old_entries days) st in
      let (counts, st2) = sweep_old old st1 in
      let (unused, st3) = on_metadata meta.get_unused_layers st2 in
      let (n, last) = delete_unused store meta blake3 unused st3 in
      (record { artifacts = counts.0; layers = n; freed = counts.1 }, last)

  -- `duration` is how long the sweep takes. It never fails.
  unfoldable pub sweep :
      Text → ℕ → GarbageCollector → AppState S M → GcRunResult × GarbageCollector × AppState S M
  unfolding sweep_by_age
  sweep now duration gc st =
      let (counts, last) =
        if ltb 0 gc.policy.max_age_days
        then sweep_by_age gc.policy.max_age_days st
        else (record { artifacts = 0; layers = 0; freed = 0 }, st) in
      if gc.running then (no_result, gc, st) else (
        record {
          deleted_artifacts = counts.artifacts;
          deleted_layers = counts.layers;
          freed_bytes = counts.freed;
          duration_ms = duration;
        },
        finish now duration (counts.artifacts + counts.layers) counts.freed gc,
        last,
      )
