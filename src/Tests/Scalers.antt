-- ===== src/Tests/Scalers.antt =====
-- An auto-scaler over tenths, and five metrics of busy workers.
use memo_build.Prelude.{ℕ, ◌+◌, ◌/◌, arith, true, List, [], ◌∷◌, ltb}
use memo_build.Scaling.{F64, ScalingMetrics, ScalingPolicy, new_scaler}
use memo_build.Scaling.Replicas.{InBounds, record_all, record_all-InBounds}

abbrev tenths : F64
tenths = record {
  Carrier = ℕ;
  zero = 0;
  add = λ a b. a + b;
  div = λ a b. a / b;
  of_int = λ n. n;
  lt = λ a b. ltb a b;
}

abbrev policy : ScalingPolicy tenths
policy = record {
  min_replicas = 1;
  max_replicas = 2;
  scale_up_threshold = 8;
  scale_down_threshold = 2;
  stabilization_window_secs = 5;
  cooldown_period_secs = 1;
}

abbrev busy : ℕ → ℕ × ScalingMetrics tenths
busy now = (now, record { timestamp = now; queued_builds = 9; worker_utilization = 9 })

abbrev calls : List (ℕ × ScalingMetrics tenths)
calls =
    busy 1000000000
    ∷ busy 2000000000
    ∷ busy 3000000000
    ∷ busy 4000000000
    ∷ busy 5000000000
    ∷ busy 6000000000
    ∷ busy 7000000000
    ∷ []

record_all-InBounds_example :
    InBounds tenths policy (record_all tenths (λ guards. true) calls (new_scaler tenths 0 policy)).1
record_all-InBounds_example =
    record_all-InBounds tenths (λ guards. true) policy 0 calls (omega arith)
