-- ===== src/Cache/Remote/InMemory.antt =====
-- A cache in memory, with the operations of the trait of src/cache/remote.rs.
use memo_build.Prelude.{Bool, true, false, Option, none, some, List, Text, lookup, insert}
use memo_build.Prelude.Results.{ok}
use memo_build.Cache.Remote.{RemoteCache}

abbrev pub is_some {ℓ} : {A : Type ℓ} → Option A → Bool
is_some none = false
is_some (some a) = true

pub record Memory : Type 0 where
  pub blobs : List (Text × Text)
  pub layer_store : List (Text × Text)
  pub node_store : List (Text × List Text)

abbrev pub in_memory : RemoteCache Memory
in_memory = record {
  has = λ k r. (ok (is_some (lookup k r.blobs)), r);
  get = λ k r. (ok (lookup k r.blobs), r);
  put = λ k bytes r. (ok tt, record r { blobs = insert k bytes r.blobs });
  has_layer = λ h r. (ok (is_some (lookup h r.layer_store)), r);
  get_layer = λ h r. (ok (lookup h r.layer_store), r);
  put_layer = λ h bytes r. (ok tt, record r { layer_store = insert h bytes r.layer_store });
  get_node_layers = λ k r. (ok (lookup k r.node_store), r);
  register_node_layers = λ k hs size r. (ok tt, record r { node_store = insert k hs r.node_store });
}
