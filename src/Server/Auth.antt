-- ===== src/Server/Auth.antt =====
-- src/auth.rs: tokens, rate limits and the middleware. SHA-256, Argon2, the random bytes in base64, the
-- order in which a hash map is walked and the clock, in nanoseconds, are parameters. The copy of the
-- tokens in a database and the log are left out.
pub mod Limits
pub mod Access
use memo_build.Prelude.{
  ℕ, ◌+◌, ◌-◌, ◌*◌, Bool, true, false, Option, none, some, List, [], ◌∷◌, ◌++◌, if◌then◌else◌, ◌==◌,
  ltb, leb, length, take, drop, codes, Text, text_eq, lookup, insert, remove, is_prefix, cons_first,
}
use memo_build.Prelude.Results.{Result, ok, err, panicked, Action, pure, throw}

pub record StoredToken : Type 0 where
  pub hash : Text
  pub description : Text
  pub is_admin : Bool

pub record RateLimitBucket : Type 0 where
  pub count : ℕ
  pub window_start : ℕ

pub record AuthState : Type 0 where
  pub admin_token : Option Text
  pub tokens : List (Text × StoredToken)
  pub rate_limit_buckets : List (Text × RateLimitBucket)

abbrev pub new_auth_state : Option Text → AuthState
new_auth_state admin_token = record {
  admin_token = admin_token;
  tokens = [];
  rate_limit_buckets = [];
}

-- `stored.split('$')`
unfoldable pub split_dollar : Text → List Text
split_dollar [] = [] ∷ []
split_dollar (c ∷ s) =
    let rest = split_dollar s in if c == b'$' then [] ∷ rest else cons_first c rest

abbrev pub is_token : Option Text → Text → Bool
is_token none token = false
is_token (some admin) token = text_eq token admin

-- One second, in nanoseconds.
abbrev pub second : ℕ
second = 1000000000

abbrev pub fresh_bucket : ℕ → RateLimitBucket
fresh_bucket now = record { count = 1; window_start = now }

-- Whether the call is allowed, and the bucket after it.
unfoldable pub count_in : Option RateLimitBucket → ℕ → ℕ → ℕ → Bool × RateLimitBucket
count_in none max_requests window now = (true, fresh_bucket now)
count_in (some bucket) max_requests window now =
    if ltb window (now - bucket.window_start)
    then (true, fresh_bucket now)
    else if leb max_requests bucket.count
    then (false, bucket)
    else (true, record bucket { count = bucket.count + 1 })

unfoldable pub check_rate_limit : Text → ℕ → ℕ → ℕ → AuthState → Bool × AuthState
unfolding insert lookup count_in
check_rate_limit key max_requests window_secs now st =
    let (allowed, bucket) =
      count_in (lookup key st.rate_limit_buckets) max_requests (window_secs * second) now in
    (allowed, record st { rate_limit_buckets = insert key bucket st.rate_limit_buckets })

-- The headers of a request that the middleware reads.
pub record Headers : Type 0 where
  pub x_forwarded_for : Option Text
  pub authorization : Option Text

pub data Outcome : Type 0 where
  too_many_requests_429 unauthorized_401 panics : Outcome
  -- the request goes on, with the token
  next_run : Text → Outcome

-- `&token[..8]`, for a token of ASCII characters.
abbrev pub first_eight : Text → Option Text
first_eight token = if ltb (length token) 8 then none else some (take 8 token)

abbrev pub client_ip : Option Text → Text
client_ip none = codes "unknown"
client_ip (some ip) = ip

unfoldable pub strip_bearer : Option Text → Option Text
strip_bearer none = none
strip_bearer (some header) =
    if is_prefix (codes "Bearer ") header then some (drop 7 header) else none

module _ (sha256_hash : Text → Text) (argon2 : Text → Text → Option Text)
    (iter : List (Text × StoredToken) → List (Text × StoredToken)) where
  abbrev computed_is : Text → Option Text → Result Bool
  computed_is hash none = err panicked
  computed_is hash (some computed) = ok (text_eq computed hash)

  abbrev verify_parts : Text → List Text → Result Bool
  verify_parts password [] = ok false
  verify_parts password (salt ∷ []) = ok false
  verify_parts password (salt ∷ hash ∷ []) = computed_is hash (argon2 password salt)
  verify_parts password (salt ∷ hash ∷ part ∷ parts) = ok false

  unfoldable pub verify_password : Text → Text → Result Bool
  unfolding split_dollar
  verify_password password stored = verify_parts password (split_dollar stored)

  abbrev valid_if_checked : Result Bool → Result Bool
  valid_if_checked (ok same) = ok true
  valid_if_checked (err e) = err e

  -- What the password check says is dropped; only its panic is not.
  abbrev pub valid_if_stored : Text → Option StoredToken → Result Bool
  valid_if_stored token none = ok false
  valid_if_stored token (some stored) = valid_if_checked (verify_password token stored.hash)

  unfoldable pub is_valid_token : Text → AuthState → Result Bool
  unfolding lookup
  is_valid_token token st =
      if is_token st.admin_token token
      then ok true
      else valid_if_stored token (lookup (sha256_hash token) st.tokens)

  abbrev admin_if_stored : Option StoredToken → Bool
  admin_if_stored none = false
  admin_if_stored (some stored) = stored.is_admin

  unfoldable pub is_admin_token : Text → AuthState → Bool
  unfolding lookup
  is_admin_token token st =
      if is_token st.admin_token token
      then true
      else admin_if_stored (lookup (sha256_hash token) st.tokens)

  abbrev store_token : Text → Text → Text → Bool → Option Text → Action AuthState Text
  store_token token salt description is_admin none st = (err panicked, st)
  store_token token salt description is_admin (some hash) st = (
    ok token,
    record st {
      tokens =
          insert (sha256_hash token)
            (record { hash = salt ++ b'$' ∷ hash; description = description; is_admin = is_admin })
            st.tokens;
    },
  )

  -- The token and the salt are the ones that were drawn.
  unfoldable pub create_token : Text → Text → Text → Bool → Action AuthState Text
  unfolding insert
  create_token token salt description is_admin =
      store_token token salt description is_admin (argon2 token salt)

  abbrev find_prefix : Text → List (Text × StoredToken) → Option Text
  find_prefix token_prefix [] = none
  find_prefix token_prefix ((key, stored) ∷ tokens) =
      let rest = find_prefix token_prefix tokens in
      if is_prefix token_prefix key then some key else rest

  abbrev revoke_found : Option Text → AuthState → Bool × AuthState
  revoke_found none st = (false, st)
  revoke_found (some key) st = (true, record st { tokens = remove key st.tokens })

  -- Whether a token was revoked: the first whose key, its SHA-256 hash, starts with the prefix.
  unfoldable pub revoke_token_handler : Text → AuthState → Bool × AuthState
  unfolding remove is_prefix
  revoke_token_handler token_prefix st = revoke_found (find_prefix token_prefix (iter st.tokens)) st

  abbrev pub limit_token : ℕ → Text → Option Text → AuthState → Outcome × AuthState
  limit_token now token none st = (panics, st)
  limit_token now token (some prefix) st =
      let (allowed, st') = check_rate_limit (codes "auth:" ++ prefix) 1000 60 now st in
      (if allowed then next_run token else too_many_requests_429, st')

  abbrev pub admit : ℕ → Text → Result Bool → AuthState → Outcome × AuthState
  admit now token (err e) st = (panics, st)
  admit now token (ok false) st = (unauthorized_401, st)
  admit now token (ok true) st = limit_token now token (first_eight token) st

  abbrev pub authenticate : ℕ → Option Text → AuthState → Outcome × AuthState
  authenticate now none st = (unauthorized_401, st)
  authenticate now (some token) st = admit now token (is_valid_token token st) st

  -- The two times are those of the two checks.
  unfoldable pub auth_middleware : ℕ → ℕ → Headers → AuthState → Outcome × AuthState
  unfolding check_rate_limit strip_bearer is_valid_token
  auth_middleware now later headers st =
      let (allowed, st') =
        check_rate_limit (codes "unauth:" ++ client_ip headers.x_forwarded_for) 100 60 now st in
      if allowed
      then authenticate later (strip_bearer headers.authorization) st'
      else (too_many_requests_429, st')
