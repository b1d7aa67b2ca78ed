-- ===== src/Scheduler.antt =====
-- src/remote_exec/scheduler.rs, `Scheduler`. The order in which the hash map of workers is walked, the
-- random index and the first two bytes of a BLAKE3 digest are parameters. What the worker answers is
-- the worker's.
pub mod Selection
pub mod Fairness
use memo_build.Prelude.{
  ℕ, ◌+◌, ◌*◌, ◌%◌, Option, none, some, List, [], ◌∷◌, length, get_elem?, Text, insert,
}
use memo_build.Prelude.Results.{Result, ok, err, no_workers, panicked, Action}
use memo_build.Executor.Interface.{ActionRequest, ActionResult}

pub data SchedulingStrategy : Type 0 where
  least_loaded random round_robin data_locality : SchedulingStrategy

pub record Scheduler : Type 0 where
  pub strategy : SchedulingStrategy
  pub worker_endpoints : List (Text × Text)
  pub next_worker_idx : ℕ

unfoldable pub register_worker : Text → Text → Scheduler → Scheduler
register_worker worker_id endpoint s = record s {
  worker_endpoints = insert worker_id endpoint s.worker_endpoints;
}

-- `workers[i].1`, where an index out of range is a panic.
abbrev pub endpoint_at : Option (Text × Text) → Result Text
endpoint_at none = err panicked
endpoint_at (some (worker_id, endpoint)) = ok endpoint

module _ (iter : List (Text × Text) → List (Text × Text)) (gen_range : ℕ → ℕ)
    (digest : Text → ℕ × ℕ) where
  unfoldable pub get_available_workers : Scheduler → List (Text × Text)
  get_available_workers s = iter s.worker_endpoints

  abbrev pub next_in_turn : List (Text × Text) → Action Scheduler Text
  next_in_turn workers s = (
    endpoint_at (get_elem? workers (s.next_worker_idx % length workers)),
    record s { next_worker_idx = s.next_worker_idx + 1 },
  )

  -- The two bytes of the digest as a number, in little-endian order.
  abbrev pub locality : Text → ℕ
  locality hash = let (low, high) = digest hash in low + high * 256

  unfoldable pub select_from :
      SchedulingStrategy → ActionRequest → List (Text × Text) → Action Scheduler Text
  select_from strategy action [] s = (err no_workers, s)
  select_from random action (w ∷ ws) s =
      (endpoint_at (get_elem? (w ∷ ws) (gen_range (length (w ∷ ws)))), s)
  select_from round_robin action (w ∷ ws) s = next_in_turn (w ∷ ws) s
  select_from least_loaded action (w ∷ ws) s = next_in_turn (w ∷ ws) s
  select_from data_locality action (w ∷ ws) s = (
    endpoint_at (get_elem? (w ∷ ws) (locality action.input_root_digest.hash % length (w ∷ ws))),
    s,
  )

  unfoldable pub select_worker : ActionRequest → Action Scheduler Text
  unfolding select_from get_available_workers
  select_worker action s = select_from s.strategy action (get_available_workers s) s
