-- ===== src/Scheduler/Selection.antt =====
-- The choice of a worker never panics.
use memo_build.Prelude.{
  ℕ, ◌<◌, ◌≡◌, ap, some, List, [], ◌∷◌, length, get_elem?, get_elem?-in_range, Text,
}
use native.Mathlib.Nat.{mod-lt}
use memo_build.Prelude.Results.{Result, ok}
use memo_build.Executor.Interface.{ActionRequest}
use memo_build.Scheduler.{
  SchedulingStrategy, least_loaded, random, round_robin, data_locality, Scheduler, endpoint_at,
  get_available_workers, select_from, select_worker,
}

-- The endpoint of one of the workers is returned.
abbrev pub Chooses : List (Text × Text) → Result Text → Type 0
Chooses workers r = (i : ℕ) × (w : Text × Text) × (get_elem? workers i ≡ some w) × (r ≡ ok (w.1))

endpoint_at-Chooses :
    (workers : List (Text × Text)) (i : ℕ)
    → i < length workers
    → Chooses workers (endpoint_at (get_elem? workers i))
endpoint_at-Chooses workers i lt =
    let (w, found) = get_elem?-in_range workers i lt in (i, w, found, ap endpoint_at found)

module _ (iter : List (Text × Text) → List (Text × Text)) (gen_range : ℕ → ℕ)
    (digest : Text → ℕ × ℕ) (in_range : (n : ℕ) → 0 < n → gen_range n < n) where
  select_from-Chooses :
      (strategy : SchedulingStrategy) (action : ActionRequest) (workers : List (Text × Text))
      (s : Scheduler)
      → 0 < length workers
      → Chooses workers (select_from iter gen_range digest strategy action workers s).0
  unfolding select_from
  select_from-Chooses strategy action [] s some_worker = elim some_worker [ ]
  select_from-Chooses random action (w ∷ ws) s some_worker =
      endpoint_at-Chooses (w ∷ ws) _ (in_range _ some_worker)
  select_from-Chooses round_robin action (w ∷ ws) s some_worker =
      endpoint_at-Chooses (w ∷ ws) _ (mod-lt _ some_worker)
  select_from-Chooses least_loaded action (w ∷ ws) s some_worker =
      endpoint_at-Chooses (w ∷ ws) _ (mod-lt _ some_worker)
  select_from-Chooses data_locality action (w ∷ ws) s some_worker =
      endpoint_at-Chooses (w ∷ ws) _ (mod-lt _ some_worker)

  -- Whenever a worker is registered, every strategy returns the endpoint of one of the workers.
  pub select_worker-Chooses :
      (action : ActionRequest) (s : Scheduler)
      → 0 < length (get_available_workers iter gen_range digest s)
      → Chooses
          (get_available_workers iter gen_range digest s)
          (select_worker iter gen_range digest action s).0
  unfolding select_worker
  select_worker-Chooses action s some_worker =
      select_from-Chooses s.strategy action (get_available_workers iter gen_range digest s) s
        some_worker
