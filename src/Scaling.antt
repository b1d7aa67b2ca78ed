-- ===== src/Scaling.antt =====
-- src/auto_scaling.rs: the auto-scaler and the build queue in front of it; src/network/scaling.rs is a second
-- copy. The arithmetic of `f64`, the clock in nanoseconds and the patch of the Kubernetes autoscaler are
-- parameters. A lock of tokio is what guards are held on it; when a reader is let in is a parameter too.
-- The prediction of needs by linear regression is left out.
pub mod Replicas
use memo_build.Prelude.{
  ℕ, ◌+◌, ◌-◌, ◌*◌, Bool, true, false, ◌&&◌, ◌||◌, Option, none, some, List, [], ◌∷◌, ◌++◌,
  if◌then◌else◌, ◌==◌, ltb, length, map, take, reverse, Text, text_eq,
}
use memo_build.Prelude.Results.{Result, ok, err, Action}

-- What the source uses of `f64`.
pub record F64 : Type 1 where
  pub Carrier : Type 0
  pub zero : Carrier
  pub add : Carrier → Carrier → Carrier
  pub div : Carrier → Carrier → Carrier
  pub of_int : ℕ → Carrier
  pub lt : Carrier → Carrier → Bool

-- The guards on a lock: none, some readers', or a writer's.
pub data Guards : Type 0 where
  unlocked read_locked write_locked : Guards

-- A call returns, or waits for a lock.
pub data Run (A : Type 0) : Type 0 where
  returns : A → Run A
  waits : Run A

abbrev pub second : ℕ
second = 1000000000

pub record BuildRequest : Type 0 where
  pub id : Text
  pub priority : ℕ
  pub estimated_duration_ms : ℕ
  pub submitted_at : ℕ

module _ (f64 : F64) where
  -- The fields that the decisions read.
  pub record ScalingMetrics : Type 0 where
    pub timestamp : ℕ
    pub queued_builds : ℕ
    pub worker_utilization : f64.Carrier

  pub record ScalingPolicy : Type 0 where
    pub min_replicas : ℕ
    pub max_replicas : ℕ
    pub scale_up_threshold : f64.Carrier
    pub scale_down_threshold : f64.Carrier
    pub stabilization_window_secs : ℕ
    pub cooldown_period_secs : ℕ

  pub record AutoScaler : Type 0 where
    pub metrics_history : List ScalingMetrics
    pub current_replicas : ℕ
    pub policy : ScalingPolicy
    pub last_scale_time : ℕ
    pub k8s_client : Option (ℕ → Result (Unit {0}))

  -- `AutoScaler::new`
  abbrev pub new_scaler : ℕ → ScalingPolicy → AutoScaler
  new_scaler now policy = record {
    metrics_history = [];
    current_replicas = policy.min_replicas;
    policy = policy;
    last_scale_time = now;
    k8s_client = none;
  }

  abbrev sum_from : f64.Carrier → List f64.Carrier → f64.Carrier
  sum_from acc [] = acc
  sum_from acc (x ∷ xs) = sum_from (f64.add acc x) xs

  abbrev average : List f64.Carrier → f64.Carrier
  average xs = f64.div (sum_from f64.zero xs) (f64.of_int (length xs))

  -- The metrics of the last ten minutes stay; the oldest are in front.
  unfoldable pub prune : ℕ → List ScalingMetrics → List ScalingMetrics
  prune now [] = []
  prune now (old ∷ history) =
      let rest = prune now history in
      if ltb (old.timestamp + 600 * second) now then rest else old ∷ history

  abbrev patch_hpa : Option (ℕ → Result (Unit {0})) → ℕ → Result (Unit {0})
  patch_hpa none target = ok tt
  patch_hpa (some client) target = client target

  -- The replicas are set before the autoscaler is patched, which may fail.
  unfoldable pub scale_to : ℕ → ℕ → Action AutoScaler (Unit {0})
  scale_to now target s =
      (patch_hpa s.k8s_client target, record s { current_replicas = target; last_scale_time = now })

  abbrev pub cools_down : ℕ → AutoScaler → Bool
  cools_down now s = ltb now (s.last_scale_time + s.policy.cooldown_period_secs * second)

  abbrev recent_metrics : AutoScaler → List ScalingMetrics
  recent_metrics s = take s.policy.stabilization_window_secs (reverse s.metrics_history)

  unfoldable pub target_replicas : AutoScaler → ℕ
  target_replicas s =
      let recent = recent_metrics s in
      let avg_utilization = average (map (λ m. m.worker_utilization) recent) in
      let avg_queued = average (map (λ m. f64.of_int m.queued_builds) recent) in
      let should_scale_up =
        f64.lt s.policy.scale_up_threshold avg_utilization || f64.lt (f64.of_int 5) avg_queued in
      let should_scale_down =
        f64.lt avg_utilization s.policy.scale_down_threshold
        && f64.lt avg_queued (f64.of_int 1)
        && ltb s.policy.min_replicas s.current_replicas in
      if should_scale_up && ltb s.current_replicas s.policy.max_replicas
      then s.current_replicas + 1
      else if should_scale_down
      then s.current_replicas - 1
      else s.current_replicas

  -- `evaluate_scaling` once it may read the history.
  unfoldable pub decide : ℕ → Action AutoScaler (Unit {0})
  unfolding scale_to target_replicas
  decide now s =
      if ltb (length s.metrics_history) 5
      then (ok tt, s)
      else if cools_down now s
      then (ok tt, s)
      else if target_replicas s == s.current_replicas
      then (ok tt, s)
      else scale_to now (target_replicas s) s

  module _ (lets_read : Guards → Bool) where
    -- `guards` are those on the history.
    unfoldable pub evaluate_scaling : ℕ → Guards → AutoScaler → Run (Result (Unit {0})) × AutoScaler
    unfolding decide
    evaluate_scaling now guards s =
        let (r, s') = decide now s in if lets_read guards then (returns r, s') else (waits, s)

    -- No guard is on the history when it is called, and its own is there to the end.
    unfoldable pub record_metrics :
        ℕ → ScalingMetrics → AutoScaler → Run (Result (Unit {0})) × AutoScaler
    unfolding evaluate_scaling prune
    record_metrics now metrics s =
        evaluate_scaling now write_locked
          (record s { metrics_history = prune now s.metrics_history ++ metrics ∷ [] })

  pub record QueueBasedScaler : Type 0 where
    pub build_queue : List BuildRequest
    pub scaler : AutoScaler

  abbrev queue_metrics : ℕ → List BuildRequest → ScalingMetrics
  queue_metrics now queue = record {
    timestamp = now;
    queued_builds = length queue;
    worker_utilization = f64.zero;
  }

  module _ (lets_read : Guards → Bool) where
    -- `guards` are those on the queue.
    unfoldable pub evaluate_queue_scaling :
        ℕ → Guards → QueueBasedScaler → Run (Result (Unit {0})) × QueueBasedScaler
    unfolding record_metrics
    evaluate_queue_scaling now guards q =
        let (r, scaler) = record_metrics lets_read now (queue_metrics now q.build_queue) q.scaler in
        if lets_read guards then (r, record q { scaler = scaler }) else (waits, q)

    unfoldable pub enqueue_build :
        ℕ → BuildRequest → QueueBasedScaler → Run (Result (Unit {0})) × QueueBasedScaler
    unfolding evaluate_queue_scaling
    enqueue_build now request q =
        evaluate_queue_scaling now write_locked
          (record q { build_queue = q.build_queue ++ request ∷ [] })

  -- The first request with the id, and the queue without it.
  unfoldable pub take_request : Text → List BuildRequest → Option BuildRequest × List BuildRequest
  take_request id [] = (none, [])
  take_request id (request ∷ queue) =
      let (found, rest) = take_request id queue in
      if text_eq request.id id then (some request, queue) else (found, request ∷ rest)

  unfoldable pub dequeue_build : Text → QueueBasedScaler → Option BuildRequest × QueueBasedScaler
  unfolding take_request
  dequeue_build build_id q =
      let (found, rest) = take_request build_id q.build_queue in
      (found, record q { build_queue = rest })
