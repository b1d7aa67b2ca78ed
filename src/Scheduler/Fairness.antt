-- ===== src/Scheduler/Fairness.antt =====
-- src/remote_exec/scheduler.rs: sequences of selections that take turns, while no worker is registered.
use native.Mathlib.Nat.{mod-lt, mod-add-mod, mod-eq_of_lt, add-mod_right}
use memo_build.Prelude.{
  ℕ, zero, suc, ◌+◌, ◌-◌, ◌%◌, ◌≤◌, ◌<◌, ◌≡◌, refl, sym, ap, ◌∙◌, Bool, true, false, inl, inr, some,
  List, [], ◌∷◌, arith, leb, Bool-cases, length, get_elem?, lt_of_get_elem?, Text,
}
use memo_build.Prelude.Results.{Result, ok}
use memo_build.Executor.Interface.{ActionRequest}
use memo_build.Scheduler.{
  SchedulingStrategy, least_loaded, random, round_robin, data_locality, Scheduler, endpoint_at,
  next_in_turn, get_available_workers, select_from, select_worker,
}

-- The strategies that take turns.
abbrev pub takes_turns : SchedulingStrategy → Bool
takes_turns round_robin = true
takes_turns least_loaded = true
takes_turns random = false
takes_turns data_locality = false

-- From any counter, a turn comes within one round.
turn_within : (x i n : ℕ) → i < n → (k : ℕ) × (k < n) × ((x + k) % n ≡ i)
turn_within x i n lt =
    let r = x % n in
    let small : r < n = mod-lt x (omega arith) in
    elim (Bool-cases (leb r i)) [
      | inl before ↦ (
        i - r,
        omega arith,
        sym (mod-add-mod x n (i - r)) ∙ ap (λ m. m % n) (ground arith) ∙ mod-eq_of_lt lt,
      )
      | inr behind ↦ (
        i + n - r,
        ground arith,
        sym (mod-add-mod x n (i + n - r))
            ∙ ap (λ m. m % n) (ground arith)
            ∙ add-mod_right i n
            ∙ mod-eq_of_lt lt,
      )
    ]

module _ (iter : List (Text × Text) → List (Text × Text)) (gen_range : ℕ → ℕ)
    (digest : Text → ℕ × ℕ) where
  -- The endpoints that are selected for actions that come one by one.
  unfoldable pub select_all : List ActionRequest → Scheduler → List (Result Text)
  unfolding select_worker
  select_all [] s = []
  select_all (action ∷ actions) s =
      let (r, s') = select_worker iter gen_range digest action s in r ∷ select_all actions s'

  select_from-turn :
      (strategy : SchedulingStrategy) (action : ActionRequest) (workers : List (Text × Text))
      (s : Scheduler)
      → takes_turns strategy ≡ true
      → 0 < length workers
      → select_from iter gen_range digest strategy action workers s
        ≡ next_in_turn iter gen_range digest workers s
  unfolding select_from
  select_from-turn strategy action [] s turns some_worker = absurd (omega arith)
  select_from-turn round_robin action (w ∷ ws) s turns some_worker = refl
  select_from-turn least_loaded action (w ∷ ws) s turns some_worker = refl
  select_from-turn random action (w ∷ ws) s turns some_worker = cc
  select_from-turn data_locality action (w ∷ ws) s turns some_worker = cc

  get_elem?-select_all :
      (actions : List ActionRequest) (s : Scheduler) (k : ℕ)
      → takes_turns s.strategy ≡ true
      → 0 < length (get_available_workers iter gen_range digest s)
      → k < length actions
      → let workers = get_available_workers iter gen_range digest s in
        get_elem? (select_all actions s) k
        ≡ some (endpoint_at (get_elem? workers ((s.next_worker_idx + k) % length workers)))
  unfolding select_all select_worker get_available_workers
  get_elem?-select_all [] s k turns some_worker lt = absurd (omega arith)
  get_elem?-select_all (action ∷ actions) s zero turns some_worker lt =
      rw (select_from-turn s.strategy action (iter s.worker_endpoints) s turns some_worker) (
        ap
          (λ m. some (
            endpoint_at
              (get_elem? (iter s.worker_endpoints) (m % length (iter s.worker_endpoints)))))
          (omega arith))
  get_elem?-select_all (action ∷ actions) s (suc k) turns some_worker lt =
      rw (select_from-turn s.strategy action (iter s.worker_endpoints) s turns some_worker) (
        get_elem?-select_all actions (record s { next_worker_idx = s.next_worker_idx + 1 }) k turns
          some_worker (omega arith)
        ∙ ap
            (λ m. some (
              endpoint_at
                (get_elem? (iter s.worker_endpoints) (m % length (iter s.worker_endpoints)))))
            (omega arith))

  -- Where the scheduler takes turns, by `RoundRobin` or by `LeastLoaded`, and at least as many actions come
  -- as there are workers, every worker is selected for one of them.
  pub select_all-reaches :
      (actions : List ActionRequest) (s : Scheduler) (i : ℕ) (w : Text × Text)
      → takes_turns s.strategy ≡ true
      → get_elem? (get_available_workers iter gen_range digest s) i ≡ some w
      → length (get_available_workers iter gen_range digest s) ≤ length actions
      → (k : ℕ) × (get_elem? (select_all actions s) k ≡ some (ok w.1))
  select_all-reaches actions s i w turns found enough =
      let workers = get_available_workers iter gen_range digest s in
      let lt : i < length workers = lt_of_get_elem? workers i found in
      let (k, less, turn) = turn_within s.next_worker_idx i (length workers) lt in
      (
        k,
        get_elem?-select_all actions s k turns (omega arith) (omega arith) ∙ rw (turn, found) refl,
      )
