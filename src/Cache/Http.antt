-- ===== src/Cache/Http.antt =====
-- src/cache/http.rs: the client of the cache server as a `RemoteCache`; src/remote_cache.rs has a second
-- copy. What sends a request (reqwest) and gzip (flate2) are parameters; a URL is the route that it
-- stands for in src/server/mod.rs. The waits between attempts change nothing and are left out.
pub mod Retries
pub mod Uploads
use memo_build.Prelude.{
  ℕ, zero, suc, ◌-◌, Bool, true, false, Option, none, some, List, [], if◌then◌else◌, length, ltb,
  Text,
}
use memo_build.Prelude.Results.{Result, ok, err, remote_error, panicked, Action, ◌>>=◌, pure, throw}
use memo_build.Cache.Remote.{RemoteCache}
use memo_build.Server.Handlers.{
  Status, ok_200, created_201, bad_request_400, not_found_404, payload_too_large_413,
  internal_server_error_500, Body, no_body, bytes, layers, Response,
}
use memo_build.Server.Handlers.Requests.{
  Request, head_cache, get_cache, put_cache, head_layer, get_layer, put_layer, get_layers,
  post_layers,
}

-- The fields of `RetryConfig` that decide how often an operation is tried.
pub record RetryConfig : Type 0 where
  pub max_attempts : ℕ

abbrev pub default_config : RetryConfig
default_config = record { max_attempts = 3 }

abbrev pub unless_ok : {W A : Type 0} → Result A → W → Result A × W → Result A × W
unless_ok (ok a) w rest = (ok a, w)
unless_ok (err e) w rest = rest

module _ {W A : Type 0} (operation : Action W A) where
  -- The loop, by the number of attempts that may still follow the present one.
  unfoldable pub retry_from : ℕ → Action W A
  retry_from zero w = operation w
  retry_from (suc left) w =
      let (r, w') = operation w in let rest = retry_from left w' in unless_ok r w' rest

  -- The first attempt is made whatever `max_attempts` is.
  unfoldable pub retry_with_backoff : RetryConfig → Action W A
  unfolding retry_from
  retry_with_backoff config = retry_from (config.max_attempts - 1)

abbrev pub is_success : Status → Bool
is_success ok_200 = true
is_success created_201 = true
is_success bad_request_400 = false
is_success not_found_404 = false
is_success payload_too_large_413 = false
is_success internal_server_error_500 = false

abbrev pub is_404 : Status → Bool
is_404 not_found_404 = true
is_404 ok_200 = false
is_404 created_201 = false
is_404 bad_request_400 = false
is_404 payload_too_large_413 = false
is_404 internal_server_error_500 = false

-- The bytes of a body that is not JSON.
abbrev pub body_bytes : Body → Text
body_bytes (bytes data_) = data_
body_bytes body = []

-- The list in a body that is one in JSON.
abbrev pub json_layers : Body → Result (Option (List Text))
json_layers (layers ls) = ok (some ls)
json_layers body = err remote_error

module _ {W : Type 0} (send : Request → Action W Response) (gzip : Text → Text)
    (gunzip : Text → Option Text) where
  abbrev pub check_status : Response → Action W (Unit {0})
  check_status (status, body) = if is_success status then pure tt else throw remote_error

  abbrev decompressed : Option Text → Action W (Option Text)
  decompressed none = throw remote_error
  decompressed (some data_) = pure (some data_)

  abbrev read_data : Response → Action W (Option Text)
  read_data (status, body) =
      if is_success status
      then decompressed (gunzip (body_bytes body))
      else if is_404 status
      then pure none
      else throw remote_error

  abbrev read_layers : Response → Action W (Option (List Text))
  read_layers (status, body) =
      if is_success status
      then (λ w. (json_layers body, w))
      else if is_404 status
      then pure none
      else throw remote_error

  unfoldable pub has : Text → Action W Bool
  unfolding retry_with_backoff
  has hash =
      retry_with_backoff (send (head_cache hash) >>= λ resp. pure (is_success resp.0))
        default_config

  unfoldable pub get : Text → Action W (Option Text)
  unfolding retry_with_backoff
  get hash = retry_with_backoff (send (get_cache hash) >>= read_data) default_config

  -- The upload is skipped for a hash that the server has; a hash of fewer than eight bytes panics there.
  abbrev pub upload_unless : Text → Text → Bool → Action W (Unit {0})
  upload_unless hash data_ true = if ltb (length hash) 8 then throw panicked else pure tt
  upload_unless hash data_ false =
      retry_with_backoff (send (put_cache hash (gzip data_)) >>= check_status) default_config

  unfoldable pub put : Text → Text → Action W (Unit {0})
  unfolding has retry_with_backoff
  put hash data_ = has hash >>= upload_unless hash data_

  unfoldable pub has_layer : Text → Action W Bool
  has_layer hash = send (head_layer hash) >>= λ resp. pure (is_success resp.0)

  unfoldable pub get_layer_data : Text → Action W (Option Text)
  get_layer_data hash = send (get_layer hash) >>= read_data

  unfoldable pub put_layer_data : Text → Text → Action W (Unit {0})
  put_layer_data hash data_ = send (put_layer hash (gzip data_)) >>= check_status

  unfoldable pub get_node_layers : Text → Action W (Option (List Text))
  get_node_layers hash = send (get_layers hash) >>= read_layers

  unfoldable pub register_node_layers : Text → List Text → ℕ → Action W (Unit {0})
  register_node_layers hash ls total_size = send (post_layers hash ls total_size) >>= check_status

  abbrev pub http_remote_cache : RemoteCache W
  http_remote_cache = record {
    has = has;
    get = get;
    put = put;
    has_layer = has_layer;
    get_layer = get_layer_data;
    put_layer = put_layer_data;
    get_node_layers = get_node_layers;
    register_node_layers = register_node_layers;
  }
