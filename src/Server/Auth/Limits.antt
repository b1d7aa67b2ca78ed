-- ===== src/Server/Auth/Limits.antt =====
-- src/auth.rs, `check_rate_limit`: how many calls are allowed in an interval of time.
use memo_build.Prelude.{
  ℕ, ◌+◌, ◌-◌, ◌*◌, ◌≤◌, ◌≡◌, Bool, true, false, ◌&&◌, Option, none, some, List, [], ◌∷◌, inl, inr,
  arith, if◌then◌else◌, leb, max, Bool-cases, Text, text_eq, text_eq_iff, subst, lookup, insert,
  lookup-insert,
}
use memo_build.Server.Auth.{RateLimitBucket, AuthState, second, count_in, check_rate_limit}

-- A call of `check_rate_limit`: its key and its time.
abbrev pub Call : Type 0
Call = Text × ℕ

-- How many calls with the key are allowed, of calls that come one by one.
unfoldable pub allowed_calls : Text → ℕ → ℕ → List Call → AuthState → ℕ
unfolding check_rate_limit
allowed_calls key max_requests window_secs [] st = 0
allowed_calls key max_requests window_secs ((k, now) ∷ calls) st =
    let (allowed, st') = check_rate_limit k max_requests window_secs now st in
    let rest = allowed_calls key max_requests window_secs calls st' in
    if allowed && text_eq k key then rest + 1 else rest

-- All times lie between `start` and `start + width`.
unfoldable pub all_within : ℕ → ℕ → List Call → Bool
all_within start width [] = true
all_within start width ((k, now) ∷ calls) =
    leb start now && leb now (start + width) && all_within start width calls

-- How many calls may still be allowed before the end of the interval.
unfoldable budget : Option RateLimitBucket → ℕ → ℕ → ℕ
budget none limit start = 2 * limit
budget (some bucket) limit start =
    if leb start bucket.window_start then limit - bucket.count else (limit - bucket.count) + limit

count_in-budget :
    (o : Option RateLimitBucket) (max_requests window start now : ℕ)
    → start ≤ now
    → now ≤ start + window
    → let limit = max 1 max_requests in
      let (allowed, bucket) = count_in o max_requests window now in
      (if allowed then 1 else 0) + budget (some bucket) limit start ≤ budget o limit start
unfolding count_in budget
count_in-budget none max_requests window start now low high = ground arith
count_in-budget (some bucket) max_requests window start now low high = ground arith

counted_here :
    (allowed : Bool) {n b t : ℕ}
    → n ≤ b
    → (if allowed then 1 else 0) + b ≤ t
    → (if allowed && true then n + 1 else n) ≤ t
counted_here true h step = omega arith
counted_here false h step = omega arith

counted_elsewhere : (allowed : Bool) {n t : ℕ} → n ≤ t → (if allowed && false then n + 1 else n) ≤ t
counted_elsewhere true h = h
counted_elsewhere false h = h

allowed_calls-budget :
    (key : Text) (max_requests window_secs start : ℕ) (calls : List Call) (st : AuthState)
    → all_within start (window_secs * second) calls ≡ true
    → allowed_calls key max_requests window_secs calls st
      ≤ budget (lookup key st.rate_limit_buckets) (max 1 max_requests) start
unfolding allowed_calls check_rate_limit all_within
allowed_calls-budget key max_requests window_secs start [] st within = omega arith
allowed_calls-budget key max_requests window_secs start ((k, now) ∷ calls) st within =
    let limit = max 1 max_requests in
    let o = lookup k st.rate_limit_buckets in
    let (allowed, bucket) = count_in o max_requests (window_secs * second) now in
    let st' = record st { rate_limit_buckets = insert k bucket st.rate_limit_buckets } in
    let rest = allowed_calls-budget key max_requests window_secs start calls st' (ground arith) in
    let found = lookup-insert k key bucket st.rate_limit_buckets in
    elim (Bool-cases (text_eq k key)) [
      | inl same ↦
          let e = (text_eq_iff k key).0 same in
          let step =
            count_in-budget o max_requests (window_secs * second) start now (ground arith)
              (ground arith) in
          let rest' = rw (found, same) at rest in
          let step' =
            subst
              (λ j.
                (if allowed then 1 else 0) + budget (some bucket) limit start
                ≤ budget (lookup j st.rate_limit_buckets) limit start)
              e step in
          rw same (counted_here allowed rest' step')
      | inr other ↦
          let rest' = rw (found, other) at rest in rw other (counted_elsewhere allowed rest')
    ]

budget_bound : (o : Option RateLimitBucket) (limit start : ℕ) → budget o limit start ≤ 2 * limit
unfolding budget
budget_bound none limit start = omega arith
budget_bound (some bucket) limit start = ground arith

-- Whatever was called before, in any interval that is no longer than the window, at most twice
-- `max_requests` calls with a key are allowed (two calls where it is zero), whatever other keys are
-- called in between.
pub allowed_calls-bound :
    (key : Text) (max_requests window_secs start : ℕ) (calls : List Call) (st : AuthState)
    → all_within start (window_secs * second) calls ≡ true
    → allowed_calls key max_requests window_secs calls st ≤ 2 * max 1 max_requests
allowed_calls-bound key max_requests window_secs start calls st within = omega (
  arith,
  allowed_calls-budget key max_requests window_secs start calls st within,
  budget_bound (lookup key st.rate_limit_buckets) (max 1 max_requests) start,
)
