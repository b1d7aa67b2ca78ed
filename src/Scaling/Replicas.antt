-- ===== src/Scaling/Replicas.antt =====
-- src/auto_scaling.rs: the number of replicas over a sequence of recorded metrics.
use memo_build.Prelude.{
  ℕ, ◌≤◌, ◌≡◌, refl, ap, Bool, List, [], ◌∷◌, ◌++◌, inl, inr, arith, ◌==◌, ltb, Bool-cases, length,
}
use memo_build.Prelude.Results.{Result}
use memo_build.Scaling.{
  F64, Guards, Run, returns, waits, ScalingMetrics, ScalingPolicy, AutoScaler, new_scaler, prune,
  scale_to, cools_down, target_replicas, decide, evaluate_scaling, record_metrics, write_locked,
}

-- All of the calls wait.
unfoldable pub all_wait {ℓ} : {A : Type ℓ} → List A → List (Run (Result (Unit {0})))
all_wait [] = []
all_wait (a ∷ xs) = waits ∷ all_wait xs

-- The calls behind one that returned, or behind one that waits with its guard and lets no other in.
abbrev behind {ℓ} :
    {A S : Type ℓ}
    → Run (Result (Unit {0}))
    → List A
    → S
    → List (Run (Result (Unit {0}))) × S
    → List (Run (Result (Unit {0}))) × S
behind (returns r) calls s rest = rest
behind waits calls s rest = (all_wait calls, s)

module _ (f64 : F64) (lets_read : Guards → Bool) where
  -- What the calls return, and the scaler after them.
  unfoldable pub record_all :
      List (ℕ × ScalingMetrics f64)
      → AutoScaler f64
      → List (Run (Result (Unit {0}))) × AutoScaler f64
  unfolding record_metrics all_wait
  record_all [] s = ([], s)
  record_all ((now, metrics) ∷ calls) s =
      let (r, s') = record_metrics f64 lets_read now metrics s in
      let rest = record_all calls s' in let (rs, last) = behind r calls s' rest in (r ∷ rs, last)

-- The scaler follows the policy, and its replicas lie within the policy's bounds.
pub record InBounds (f64 : F64) (policy : ScalingPolicy f64) (s : AutoScaler f64) : Type 0 where
  pub same_policy : s.policy ≡ policy
  pub at_least : policy.min_replicas ≤ s.current_replicas
  pub at_most : s.current_replicas ≤ policy.max_replicas

target_replicas-bounds :
    (f64 : F64) (s : AutoScaler f64)
    → s.policy.min_replicas ≤ s.current_replicas
    → s.current_replicas ≤ s.policy.max_replicas
    → (s.policy.min_replicas ≤ target_replicas f64 s)
      × (target_replicas f64 s ≤ s.policy.max_replicas)
unfolding target_replicas
target_replicas-bounds f64 s low high = ground arith

module _ (f64 : F64) (policy : ScalingPolicy f64) where
  scale_to-InBounds :
      (now : ℕ) (s : AutoScaler f64)
      → InBounds f64 policy s
      → InBounds f64 policy (scale_to f64 now (target_replicas f64 s) s).1
  unfolding scale_to
  scale_to-InBounds now s b =
      let low = ap (λ p. p.min_replicas) b.same_policy in
      let high = ap (λ p. p.max_replicas) b.same_policy in
      let (least, most) =
        target_replicas-bounds f64 s (omega (arith, low, b.at_least))
          (omega (arith, high, b.at_most)) in
      record {
        same_policy = b.same_policy;
        at_least = omega (arith, low, least);
        at_most = omega (arith, high, most);
      }

  decide-InBounds :
      (now : ℕ) (s : AutoScaler f64)
      → InBounds f64 policy s
      → InBounds f64 policy (decide f64 now s).1
  unfolding decide
  decide-InBounds now s b = elim (Bool-cases (ltb (length s.metrics_history) 5)) [
    | inl few ↦ rw few b
    | inr many ↦ rw many (elim (Bool-cases (cools_down f64 now s)) [
      | inl cools ↦ rw cools b
      | inr ready ↦ rw ready (elim (Bool-cases (target_replicas f64 s == s.current_replicas)) [
        | inl same ↦ rw same b
        | inr other ↦ rw other (scale_to-InBounds now s b)
      ])
    ])
  ]

  evaluate_scaling-InBounds :
      (lets_read : Guards → Bool) (now : ℕ) (guards : Guards) (s : AutoScaler f64)
      → InBounds f64 policy s
      → InBounds f64 policy (evaluate_scaling f64 lets_read now guards s).1
  unfolding evaluate_scaling
  evaluate_scaling-InBounds lets_read now guards s b = elim (Bool-cases (lets_read guards)) [
    | inl in_ ↦ rw in_ (decide-InBounds now s b)
    | inr out ↦ rw out b
  ]

  behind-InBounds :
      {A : Type 0} (r : Run (Result (Unit {0}))) (calls : List A) (s : AutoScaler f64)
      (rest : List (Run (Result (Unit {0}))) × AutoScaler f64)
      → InBounds f64 policy s
      → InBounds f64 policy rest.1
      → InBounds f64 policy (behind r calls s rest).1
  behind-InBounds (returns r) calls s rest b b' = b'
  behind-InBounds waits calls s rest b b' = b

  record_all-keeps :
      (lets_read : Guards → Bool) (calls : List (ℕ × ScalingMetrics f64)) (s : AutoScaler f64)
      → InBounds f64 policy s
      → InBounds f64 policy (record_all f64 lets_read calls s).1
  unfolding record_all record_metrics
  record_all-keeps lets_read [] s b = b
  record_all-keeps lets_read ((now, metrics) ∷ calls) s b =
      let recorded = record s {
        metrics_history = prune f64 now s.metrics_history ++ metrics ∷ [];
      } in
      let kept : InBounds f64 policy recorded = record {
        same_policy = b.same_policy;
        at_least = b.at_least;
        at_most = b.at_most;
      } in
      let (r, s') = evaluate_scaling f64 lets_read now write_locked recorded in
      let kept' = evaluate_scaling-InBounds lets_read now write_locked recorded kept in
      behind-InBounds r calls s' (record_all f64 lets_read calls s') kept'
        (record_all-keeps lets_read calls s' kept')

-- Whatever metrics are recorded, at whatever times, whatever the arithmetic on them says and whether or
-- not a lock lets its own writer read, a new scaler follows its policy and keeps the number of
-- replicas within the policy's bounds, if the lower bound is no more than the upper.
pub record_all-InBounds :
    (f64 : F64) (lets_read : Guards → Bool) (policy : ScalingPolicy f64) (start : ℕ)
    (calls : List (ℕ × ScalingMetrics f64))
    → policy.min_replicas ≤ policy.max_replicas
    → InBounds f64 policy (record_all f64 lets_read calls (new_scaler f64 start policy)).1
record_all-InBounds f64 lets_read policy start calls le =
    record_all-keeps f64 policy lets_read calls (new_scaler f64 start policy)
      (record { same_policy = refl; at_least = omega arith; at_most = le })
