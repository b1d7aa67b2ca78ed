-- ===== src/Server/Cluster/SelfRequests.antt =====
-- src/cluster_server.rs as src/main.rs starts it: the answers of a server whose local cache asks the server.
use memo_build.Prelude.{
  ◌∙◌, ℕ, zero, suc, ◌≡◌, refl, ap, ◌⊎◌, inl, inr, Bool, true, false, Option, none, some, List, [],
  ◌∷◌, Text, lookup, ltb, length, if◌then◌else◌, Bool-cases,
}
use memo_build.Prelude.Results.{ok, err, remote_error, Action}
use memo_build.Cache.Remote.{RemoteCache}
use memo_build.Cache.Cluster.Membership.{CacheCluster, get_primary_node, get_replica_nodes}
use memo_build.Cache.Cluster.Distributed.{
  DistributedCache, client_of, has_in_replicas, has_anywhere, get_anywhere, put_everywhere,
}
use memo_build.Cache.Http as Http
use memo_build.Cache.Http.{retry_from, retry_with_backoff, http_remote_cache}
use memo_build.Server.Handlers.{
  Status, body_limit, payload_too_large_413, not_found_404, internal_server_error_500, no_body,
  Response,
}
use memo_build.Server.Handlers.Requests.{Request, head_cache, get_cache, put_cache}
use memo_build.Server.Cluster.{answer, relay, found_status, cache_over, send_to_self, serve}

-- What a PUT of a body is answered.
abbrev pub refusal : Text → Status
refusal body =
    if ltb body_limit (length body) then payload_too_large_413 else internal_server_error_500

-- A call that gives an error, or is answered with a status, and changes nothing.
abbrev Refuses : {W : Type 0} → Action W Response → Status → W → Type 0
Refuses step status w =
    (step w ≡ (err remote_error, w))
    ⊎ (step w ≡ (ok (internal_server_error_500, no_body), w))
    ⊎ (step w ≡ (ok (status, no_body), w))

module _ {R : Type 0} (send : Request → Action R Response) (gzip : Text → Text)
    (gunzip : Text → Option Text) (w : R) where
  get-err :
      (key : Text)
      → Refuses (send (get_cache key)) internal_server_error_500 w
      → Http.get send gzip gunzip key w ≡ (err remote_error, w)
  unfolding Http.get retry_with_backoff retry_from
  get-err key (inl e) = rw (e, e, e) refl
  get-err key (inr (inl e)) = rw (e, e, e) refl
  get-err key (inr (inr e)) = rw (e, e, e) refl

  has-false :
      (key : Text)
      → Refuses (send (head_cache key)) not_found_404 w
      → (Http.has send gzip gunzip key w ≡ (err remote_error, w))
        ⊎ (Http.has send gzip gunzip key w ≡ (ok false, w))
  unfolding Http.has retry_with_backoff retry_from
  has-false key (inl e) = inl (rw (e, e, e) refl)
  has-false key (inr (inl e)) = inr (rw e refl)
  has-false key (inr (inr e)) = inr (rw e refl)

  put-err :
      (key body : Text)
      → Refuses (send (head_cache key)) not_found_404 w
      → Refuses (send (put_cache key (gzip body))) payload_too_large_413 w
      → Http.put send gzip gunzip key body w ≡ (err remote_error, w)
  unfolding Http.put retry_with_backoff retry_from
  put-err key body h p = elim (has-false key h) [
    | inl e ↦ rw e refl
    | inr e ↦ rw e (elim p [
      | inl q ↦ rw (q, q, q) refl
      | inr (inl q) ↦ rw (q, q, q) refl
      | inr (inr q) ↦ rw (q, q, q) refl
    ])
  ]

module _ {R : Type 0} (hash : Text → ℕ) (to_string : ℕ → Text) (d : DistributedCache R)
    (none_added : d.remote_clients ≡ []) where
  client_of-none : (o : Option Text) → client_of d o ≡ none
  unfolding lookup
  client_of-none none = refl
  client_of-none (some id) = rw none_added refl

  has_in_replicas-false :
      (question : RemoteCache R → Action R Bool) (ids : List Text) (w : R)
      → has_in_replicas d question ids w ≡ (ok false, w)
  unfolding has_in_replicas
  has_in_replicas-false question [] w = refl
  has_in_replicas-false question (id ∷ ids) w =
      rw (client_of-none (some id)) (has_in_replicas-false question ids w)

  has_anywhere-false :
      (question : RemoteCache R → Action R Bool) (key : Text) (w : R)
      → question d.local_cache w ≡ (ok false, w)
      → has_anywhere hash to_string d question key w ≡ (ok false, w)
  unfolding has_anywhere
  has_anywhere-false question key w e =
      rw (e, client_of-none (get_primary_node hash to_string key d.cluster))
        (has_in_replicas-false question (get_replica_nodes hash to_string key d.cluster) w)

module _ {R : Type 0} (hash : Text → ℕ) (to_string : ℕ → Text) (cluster : CacheCluster)
    (gzip : Text → Text) (gunzip : Text → Option Text) (answered : ℕ → Bool) where
  abbrev self : ℕ → Request → Action R Response
  self = send_to_self hash to_string cluster gzip gunzip answered

  abbrev over : ℕ → RemoteCache R
  over depth = cache_over hash to_string cluster gzip gunzip (self depth)

  -- An answer, as the client of the server gets it.
  relay-Refuses :
      (b : Bool) (answer_ : Response × R) (status : Status) (w : R)
      → answer_ ≡ ((internal_server_error_500, no_body), w)
      → (relay b answer_ ≡ (err remote_error, w))
        ⊎ (relay b answer_ ≡ (ok (internal_server_error_500, no_body), w))
        ⊎ (relay b answer_ ≡ (ok (status, no_body), w))
  relay-Refuses true answer_ status w e = inr (inl (ap (relay true) e))
  relay-Refuses false answer_ status w e = inl (ap (relay false) e)

  relay_status-Refuses :
      (b : Bool) (answer_ : Response × R) (status : Status) (w : R)
      → answer_ ≡ ((status, no_body), w)
      → (relay b answer_ ≡ (err remote_error, w))
        ⊎ (relay b answer_ ≡ (ok (internal_server_error_500, no_body), w))
        ⊎ (relay b answer_ ≡ (ok (status, no_body), w))
  relay_status-Refuses true answer_ status w e = inr (inr (ap (relay true) e))
  relay_status-Refuses false answer_ status w e = inl (ap (relay false) e)

  get-refused :
      (depth : ℕ) (key : Text) (w : R)
      → Refuses (self depth (get_cache key)) internal_server_error_500 w
      → answer (over depth) (get_cache key) w ≡ ((internal_server_error_500, no_body), w)
  unfolding answer get_anywhere
  get-refused depth key w r = rw (get-err (self depth) gzip gunzip w key r) refl

  send-get :
      (depth : ℕ) (key : Text) (w : R)
      → Refuses (self depth (get_cache key)) internal_server_error_500 w
  unfolding send_to_self
  send-get zero key w = inl refl
  send-get (suc depth) key w =
      relay-Refuses (answered depth) (answer (over depth) (get_cache key) w)
        internal_server_error_500 w (get-refused depth key w (send-get depth key w))

  has-refused :
      (depth : ℕ) (key : Text) (w : R)
      → Refuses (self depth (head_cache key)) not_found_404 w
      → (answer (over depth) (head_cache key) w ≡ ((internal_server_error_500, no_body), w))
        ⊎ (answer (over depth) (head_cache key) w ≡ ((not_found_404, no_body), w))
  unfolding answer has_anywhere
  has-refused depth key w r = elim (has-false (self depth) gzip gunzip w key r) [
    | inl e ↦ inl (rw e refl)
    | inr e ↦
        let d : DistributedCache R = record {
          cluster = cluster;
          local_cache = http_remote_cache (self depth) gzip gunzip;
          remote_clients = [];
        } in
        let nowhere = has_anywhere-false hash to_string d refl (λ c. c.has key) key w e in
        inr (ap (λ x. ((found_status x.0, no_body), x.1)) nowhere)
  ]

  send-has :
      (depth : ℕ) (key : Text) (w : R) → Refuses (self depth (head_cache key)) not_found_404 w
  unfolding send_to_self
  send-has zero key w = inl refl
  send-has (suc depth) key w = elim (has-refused depth key w (send-has depth key w)) [
    | inl e ↦
        relay-Refuses (answered depth) (answer (over depth) (head_cache key) w) not_found_404 w e
    | inr e ↦
        relay_status-Refuses (answered depth) (answer (over depth) (head_cache key) w) not_found_404
          w e
  ]

  put-refused :
      (depth : ℕ) (key body : Text) (w : R)
      → Refuses (self depth (put_cache key (gzip body))) payload_too_large_413 w
      → answer (over depth) (put_cache key body) w ≡ ((refusal body, no_body), w)
  unfolding answer put_everywhere
  put-refused depth key body w r = elim (Bool-cases (ltb body_limit (length body))) [
    | inl too_large ↦ rw too_large refl
    | inr fits ↦
        rw (fits, put-err (self depth) gzip gunzip w key body (send-has depth key w) r) refl
  ]

  send-put :
      (depth : ℕ) (key body : Text) (w : R)
      → Refuses (self depth (put_cache key body)) payload_too_large_413 w
  unfolding send_to_self
  send-put zero key body w = inl refl
  send-put (suc depth) key body w =
      let refused = put-refused depth key body w (send-put depth key (gzip body) w) in
      let answer_ = answer (over depth) (put_cache key body) w in
      let with_status : Status → Response × R = λ status. ((status, no_body), w) in
      elim (Bool-cases (ltb body_limit (length body))) [
        | inl too_large ↦
            let status : refusal body ≡ payload_too_large_413 = rw too_large refl in
            relay_status-Refuses (answered depth) answer_ payload_too_large_413 w
              (refused ∙ ap with_status status)
        | inr fits ↦
            let status : refusal body ≡ internal_server_error_500 = rw fits refl in
            relay-Refuses (answered depth) answer_ payload_too_large_413 w
              (refused ∙ ap with_status status)
      ]

-- However many requests the cluster server makes to itself before its client gives up, and wherever the
-- client gives up, every GET and every PUT of an artifact is answered 500, the PUT of a body of more than
-- 2 MiB 413, and nothing is stored: the state behind the caches stays as it was.
pub serve-fails :
    {R : Type 0} (hash : Text → ℕ) (to_string : ℕ → Text) (cluster : CacheCluster)
    (gzip : Text → Text) (gunzip : Text → Option Text) (answered : ℕ → Bool) (depth : ℕ)
    (key body : Text) (w : R)
    → let server = serve hash to_string cluster gzip gunzip answered depth in
      (server (get_cache key) w ≡ ((internal_server_error_500, no_body), w))
      × (server (put_cache key body) w ≡ ((refusal body, no_body), w))
unfolding serve
serve-fails hash to_string cluster gzip gunzip answered depth key body w = (
  get-refused hash to_string cluster gzip gunzip answered depth key w
      (send-get hash to_string cluster gzip gunzip answered depth key w),
  put-refused hash to_string cluster gzip gunzip answered depth key body w
      (send-put hash to_string cluster gzip gunzip answered depth key (gzip body) w),
)
