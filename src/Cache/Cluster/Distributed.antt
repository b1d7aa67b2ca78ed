-- ===== src/Cache/Cluster/Distributed.antt =====
-- src/cache/cluster.rs, `DistributedCache`: a local cache, the primary node of a key and its replicas.
-- `R` is the state of all the caches. The tasks that a write spawns run one after the other, in the
-- order in which they are spawned, and no timeout ends the wait for them.
use memo_build.Prelude.{
  ℕ, Bool, true, false, Option, none, some, List, [], ◌∷◌, if◌then◌else◌, Text, lookup, insert,
}
use memo_build.Prelude.Results.{Action, ◌>>=◌, ◌>>◌, pure, ignore}
use memo_build.Cache.Remote.{RemoteCache}
use memo_build.Cache.Cluster.Membership.{CacheCluster, get_primary_node, get_replica_nodes}

pub record DistributedCache (R : Type 0) : Type 0 where
  pub cluster : CacheCluster
  pub local_cache : RemoteCache R
  pub remote_clients : List (Text × RemoteCache R)

module _ {R : Type 0} where
  abbrev pub client_of : DistributedCache R → Option Text → Option (RemoteCache R)
  client_of d none = none
  client_of d (some node_id) = lookup node_id d.remote_clients

  unfoldable pub add_remote_client : Text → RemoteCache R → DistributedCache R → DistributedCache R
  add_remote_client node_id client d = record d {
    remote_clients = insert node_id client d.remote_clients;
  }

  -- A question to a node that may have no client.
  abbrev pub ask : (RemoteCache R → Action R Bool) → Option (RemoteCache R) → Action R Bool
  ask question none = pure false
  ask question (some client) = question client

  abbrev pub fetch :
      (RemoteCache R → Action R (Option Text)) → Option (RemoteCache R) → Action R (Option Text)
  fetch question none = pure none
  fetch question (some client) = question client

  -- A write to a node, whose error is dropped.
  abbrev pub send :
      (RemoteCache R → Action R (Unit {0})) → Option (RemoteCache R) → Action R (Unit {0})
  send write none = pure tt
  send write (some client) = ignore (write client)

  -- The early return of `true`.
  abbrev pub unless : Bool → Action R Bool → Action R Bool
  unless found rest = if found then pure true else rest

  unfoldable pub has_in_replicas :
      DistributedCache R → (RemoteCache R → Action R Bool) → List Text → Action R Bool
  has_in_replicas d question [] = pure false
  has_in_replicas d question (id ∷ ids) = do
    found ← ask question (client_of d (some id))
    unless found (has_in_replicas d question ids)

  -- The loop over the replicas; `keep` is what is done with an artifact that is found.
  unfoldable pub get_from_replicas :
      DistributedCache R
      → (RemoteCache R → Action R (Option Text))
      → (Text → Action R (Unit {0}))
      → List Text
      → Action R (Option Text)
  get_from_replicas d question keep [] = pure none
  get_from_replicas d question keep (id ∷ ids) = do
    found ← fetch question (client_of d (some id))
    elim found [
      | none ↦ get_from_replicas d question keep ids
      | some bytes ↦ keep bytes >> pure (some bytes)
    ]

  unfoldable pub send_all :
      DistributedCache R → (RemoteCache R → Action R (Unit {0})) → List Text → Action R (Unit {0})
  send_all d write [] = pure tt
  send_all d write (id ∷ ids) = do send write (client_of d (some id)); send_all d write ids

module _ {R : Type 0} (hash : Text → ℕ) (to_string : ℕ → Text) where
  abbrev pub primary_of : DistributedCache R → Text → Option (RemoteCache R)
  primary_of d key = client_of d (get_primary_node hash to_string key d.cluster)

  -- `has` and `has_layer` are the same but for the question.
  unfoldable pub has_anywhere :
      DistributedCache R → (RemoteCache R → Action R Bool) → Text → Action R Bool
  unfolding has_in_replicas
  has_anywhere d question key = do
    here ← question d.local_cache
    unless here (do
      there ← ask question (primary_of d key)
      unless there (has_in_replicas d question (get_replica_nodes hash to_string key d.cluster)))

  abbrev keep_replica :
      DistributedCache R
      → (Text → RemoteCache R → Action R (Unit {0}))
      → Text
      → Text
      → Action R (Unit {0})
  keep_replica d write key bytes = do
    write bytes d.local_cache
    send (write bytes) (primary_of d key)

  -- `get` and `get_layer` are the same but for the question and the write.
  unfoldable pub get_anywhere :
      DistributedCache R
      → (RemoteCache R → Action R (Option Text))
      → (Text → RemoteCache R → Action R (Unit {0}))
      → Text
      → Action R (Option Text)
  unfolding get_from_replicas
  get_anywhere d question write key = do
    here ← question d.local_cache
    elim here [
      | some bytes ↦ pure (some bytes)
      | none ↦ do
        there ← fetch question (primary_of d key)
        elim there [
          | some bytes ↦ write bytes d.local_cache >> pure (some bytes)
          | none ↦
              get_from_replicas d question (keep_replica d write key)
                (get_replica_nodes hash to_string key d.cluster)
        ]
    ]

  -- `put` and `put_layer` are the same but for the write.
  unfoldable pub put_everywhere :
      DistributedCache R → (RemoteCache R → Action R (Unit {0})) → Text → Action R (Unit {0})
  unfolding send_all
  put_everywhere d write key = do
    write d.local_cache
    send write (primary_of d key)
    send_all d write (get_replica_nodes hash to_string key d.cluster)

  -- `DistributedCache` as a `RemoteCache`.
  abbrev pub distributed : DistributedCache R → RemoteCache R
  distributed d = record {
    has = λ key. has_anywhere d (λ c. c.has key) key;
    get = λ key. get_anywhere d (λ c. c.get key) (λ bytes c. c.put key bytes) key;
    put = λ key bytes. put_everywhere d (λ c. c.put key bytes) key;
    has_layer = λ key. has_anywhere d (λ c. c.has_layer key) key;
    get_layer = λ key. get_anywhere d (λ c. c.get_layer key) (λ bytes c. c.put_layer key bytes) key;
    put_layer = λ key bytes. put_everywhere d (λ c. c.put_layer key bytes) key;
    get_node_layers = λ key. d.local_cache.get_node_layers key;
    register_node_layers = λ key layers size. d.local_cache.register_node_layers key layers size;
  }
