-- ===== src/Tests/Accounts.antt =====
-- Tokens, rate limits and attempts at small inputs.
use memo_build.Prelude.{
  ℕ, zero, suc, ◌*◌, ◌≤◌, ◌≡◌, refl, ◌⊎◌, true, Option, none, some, List, [], ◌∷◌, ◌++◌, max, Text,
  codes, is_prefix,
}
use memo_build.Prelude.Results.{ok, err, remote_error, Action}
use memo_build.Server.Auth.{
  StoredToken, AuthState, new_auth_state, Headers, next_run, second, strip_bearer, auth_middleware,
}
use memo_build.Server.Auth.Limits.{Call, allowed_calls, all_within, allowed_calls-bound}
use memo_build.Server.Auth.Access.{IsKnown, auth_middleware-IsKnown}
use memo_build.Cache.Http.{default_config, retry_with_backoff}
use memo_build.Cache.Http.Retries.{counted, is_ok, retry_with_backoff-count}

abbrev calls : List Call
calls = (codes "ip", 0) ∷ (codes "other", 5) ∷ (codes "ip", 20) ∷ (codes "ip", 1000000000) ∷ []

in_a_second : all_within 0 (1 * second) calls ≡ true
unfolding all_within
in_a_second = refl

allowed_calls-bound_example :
    allowed_calls (codes "ip") 2 1 calls (new_auth_state none) ≤ 2 * max 1 2
allowed_calls-bound_example =
    allowed_calls-bound (codes "ip") 2 1 0 calls (new_auth_state none) in_a_second

abbrev sha256_hash : Text → Text
sha256_hash token = codes "sha" ++ token

abbrev argon2 : Text → Text → Option Text
argon2 password salt = some (salt ++ password)

abbrev as_listed : List (Text × StoredToken) → List (Text × StoredToken)
as_listed tokens = tokens

abbrev admin : AuthState
admin = new_auth_state (some (codes "administrator"))

abbrev headers : Headers
headers = record { x_forwarded_for = none; authorization = some (codes "Bearer administrator") }

goes_on :
    (auth_middleware sha256_hash argon2 as_listed 0 1 headers admin).0
    ≡ next_run (codes "administrator")
unfolding auth_middleware is_prefix
goes_on = refl

auth_middleware-IsKnown_example :
    (strip_bearer headers.authorization ≡ some (codes "administrator"))
    × IsKnown sha256_hash (codes "administrator") admin
    × (8 ≤ 13)
auth_middleware-IsKnown_example =
    auth_middleware-IsKnown sha256_hash argon2 as_listed 0 1 headers admin (codes "administrator")
      goes_on

-- An operation that succeeds from the second call on; its state counts the calls.
abbrev flaky : Action ℕ Text
flaky zero = (err remote_error, 1)
flaky (suc n) = (ok (codes "data"), suc (suc n))

retry_with_backoff-count_example :
    let (r, (w', n)) = retry_with_backoff (counted flaky) default_config (0, 0) in
    ((r, w') ≡ retry_with_backoff flaky default_config 0)
    × (1 ≤ n)
    × (n ≤ 3)
    × ((is_ok r ≡ true) ⊎ (n ≡ 3))
retry_with_backoff-count_example = retry_with_backoff-count flaky default_config 0
