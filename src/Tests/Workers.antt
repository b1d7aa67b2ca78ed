-- ===== src/Tests/Workers.antt =====
-- A scheduler with two workers.
use memo_build.Prelude.{
  ℕ, ◌-◌, ◌≤◌, ◌≡◌, refl, some, get_elem?, [], ◌∷◌, List, Text, codes, length, insert, arith,
}
use memo_build.Prelude.Results.{ok}
use memo_build.Executor.Interface.{ActionRequest}
use memo_build.Scheduler.{Scheduler, random, round_robin, register_worker, get_available_workers}
use memo_build.Scheduler.Fairness.{select_all, select_all-reaches}

abbrev as_listed : List (Text × Text) → List (Text × Text)
as_listed workers = workers

-- The last index, as a random one.
abbrev last_index : ℕ → ℕ
last_index n = n - 1

abbrev two_bytes : Text → ℕ × ℕ
two_bytes hash = (1, 2)

abbrev no_workers_yet : Scheduler
no_workers_yet = record { strategy = random; worker_endpoints = []; next_worker_idx = 0 }

abbrev two_workers : Scheduler
two_workers =
    register_worker (codes "w2") (codes "http://w2")
      (register_worker (codes "w1") (codes "http://w1") no_workers_yet)

abbrev action : ActionRequest
action = record {
  command = codes "make" ∷ [];
  env = [];
  input_root_digest = record { hash = codes "ab"; size_bytes = 0 };
  timeout_secs = 600;
  platform_properties = [];
  output_files = [];
  output_directories = [];
}

abbrev in_turn : Scheduler
in_turn = record two_workers { strategy = round_robin; next_worker_idx = 7 }

second_worker :
    get_elem? (get_available_workers as_listed last_index two_bytes in_turn) 1
    ≡ some (codes "w2", codes "http://w2")
unfolding get_available_workers register_worker insert
second_worker = refl

two_actions : length (get_available_workers as_listed last_index two_bytes in_turn) ≤ 2
unfolding get_available_workers register_worker insert
two_actions = omega arith

select_all-reaches_example :
    (k : ℕ) × (get_elem?
        (select_all as_listed last_index two_bytes (action ∷ action ∷ []) in_turn)
        k
      ≡ some (ok (codes "http://w2")))
select_all-reaches_example =
    select_all-reaches as_listed last_index two_bytes (action ∷ action ∷ []) in_turn 1
      (codes "w2", codes "http://w2") refl second_worker two_actions
