-- ===== src/Cache/Http/Retries.antt =====
-- src/cache/http.rs, `retry_with_backoff`: how often an operation is tried.
use memo_build.Prelude.{
  ℕ, zero, suc, Bool, true, false, ◌+◌, ◌-◌, ◌≤◌, ◌≡◌, refl, arith, inl, inr, ◌⊎◌, max,
}
use memo_build.Prelude.Results.{Result, ok, err, Action}
use memo_build.Cache.Http.{RetryConfig, retry_from, retry_with_backoff, unless_ok}

-- The operation, on a state that also counts its calls.
unfoldable pub counted : {W A : Type 0} → Action W A → Action (W × ℕ) A
counted operation (w, n) = let (r, w') = operation w in (r, (w', n + 1))

abbrev pub is_ok : {A : Type 0} → Result A → Bool
is_ok (ok a) = true
is_ok (err e) = false

-- What a run of the counted operation shares with a run of the operation: it made a call, at most
-- `left` more, and all of them if it failed.
abbrev Matches : {W A : Type 0} → Result A × (W × ℕ) → Result A × W → ℕ → ℕ → Type 0
Matches (r, last) plain n left =
    ((r, last.0) ≡ plain)
    × (n + 1 ≤ last.1)
    × (last.1 ≤ n + 1 + left)
    × ((is_ok r ≡ true) ⊎ (last.1 ≡ n + 1 + left))

unless_ok-Matches :
    {W A : Type 0} (r : Result A) (w : W) (n left : ℕ) (rest : Result A × (W × ℕ))
    (plain : Result A × W)
    → Matches rest plain (n + 1) left
    → Matches (unless_ok r (w, n + 1) rest) (unless_ok r w plain) n (suc left)
unless_ok-Matches (ok a) w n left rest plain m = (refl, omega arith, omega arith, inl refl)
unless_ok-Matches (err e) w n left (r, last) plain (same, low, high, inl done) =
    (same, omega arith, omega arith, inl done)
unless_ok-Matches (err e) w n left (r, last) plain (same, low, high, inr all) =
    (same, omega arith, omega arith, inr (omega arith))

retry_from-Matches :
    {W A : Type 0} (operation : Action W A) (left : ℕ) (w : W) (n : ℕ)
    → Matches (retry_from (counted operation) left (w, n)) (retry_from operation left w) n left
unfolding retry_from counted
retry_from-Matches operation zero w n = (refl, omega arith, omega arith, inr (omega arith))
retry_from-Matches operation (suc left) w n =
    let (r, w') = operation w in
    unless_ok-Matches r w' n left (retry_from (counted operation) left (w', n + 1))
      (retry_from operation left w') (retry_from-Matches operation left w' (n + 1))

-- The operation is called at least once and at most `max_attempts` times, or once where that is zero, and
-- if no call succeeds, that often. Counting the calls changes neither the result nor the state.
pub retry_with_backoff-count :
    {W A : Type 0} (operation : Action W A) (config : RetryConfig) (w : W)
    → let (r, (w', n)) = retry_with_backoff (counted operation) config (w, 0) in
      ((r, w') ≡ retry_with_backoff operation config w)
      × (1 ≤ n)
      × (n ≤ max 1 config.max_attempts)
      × ((is_ok r ≡ true) ⊎ (n ≡ max 1 config.max_attempts))
unfolding retry_with_backoff
retry_with_backoff-count operation config w =
    let (same, low, high, all) = retry_from-Matches operation (config.max_attempts - 1) w 0 in
    (same, low, omega arith, elim all [ inl done ↦ inl done | inr e ↦ inr (omega arith) ])
