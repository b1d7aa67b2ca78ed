-- ===== src/Cache/Router.antt =====
-- src/remote_router/router.rs, `CacheRouter`: caches in several regions. `R` is the state of all the
-- caches. The health of a region does not change during an operation, and the tasks that a write
-- spawns run right behind it, in the order in which they are spawned.
pub mod Reads
use memo_build.Prelude.{
  ℕ, Bool, true, false, not, Option, none, some, List, [], ◌∷◌, if◌then◌else◌, filter, Text,
  text_eq,
}
use memo_build.Prelude.Results.{
  Result, ok, err, panicked, Action, and_then, ◌>>=◌, ◌>>◌, pure, throw, ignore,
}
use memo_build.Cache.Remote.{RemoteCache}

pub record RegionNode (R : Type 0) : Type 0 where
  pub name : Text
  pub endpoint : Text
  pub client : RemoteCache R
  pub healthy : Bool

module _ {R : Type 0} where
  -- All strategies read in the order in which the regions are configured.
  unfoldable pub select_nodes_for_read : List (RegionNode R) → List (RegionNode R)
  select_nodes_for_read regions = filter (λ (r : RegionNode R). r.healthy) regions

  abbrev pub or_default : Option (RegionNode R) → List (RegionNode R) → Option (RegionNode R)
  or_default (some region) regions = some region
  or_default none [] = none
  or_default none (region ∷ regions) = some region

  unfoldable pub first_healthy : List (RegionNode R) → Option (RegionNode R)
  first_healthy [] = none
  first_healthy (region ∷ regions) =
      let rest = first_healthy regions in if region.healthy then some region else rest

  -- The first healthy region, or else the first of all; `none` is the panic where there is no region.
  unfoldable pub select_primary_for_write : List (RegionNode R) → Option (RegionNode R)
  unfolding first_healthy
  select_primary_for_write regions = or_default (first_healthy regions) regions

  unfoldable pub select_replicas_for_write : Text → List (RegionNode R) → List (RegionNode R)
  select_replicas_for_write primary_name regions =
      filter (λ (r : RegionNode R). not (text_eq r.name primary_name)) regions

  -- `Ok(true)` is returned; all else goes on, an error too.
  abbrev pub unless_true : Result Bool → Action R Bool → Action R Bool
  unless_true (ok true) rest = pure true
  unless_true _ rest = rest

  unfoldable pub has_anywhere :
      (RemoteCache R → Action R Bool) → List (RegionNode R) → Action R Bool
  has_anywhere question [] s = pure false s
  has_anywhere question (region ∷ regions) s =
      let (answer, s') = question region.client s in
      unless_true answer (has_anywhere question regions) s'

  -- The writes to the replicas, whose errors are dropped.
  unfoldable pub send_all :
      (RemoteCache R → Action R (Unit {0})) → List (RegionNode R) → Action R (Unit {0})
  send_all write [] = pure tt
  send_all write (region ∷ regions) = do ignore (write region.client); send_all write regions

  unfoldable pub write_from :
      (RemoteCache R → Action R (Unit {0}))
      → List (RegionNode R)
      → Option (RegionNode R)
      → Action R (Unit {0})
  unfolding send_all select_replicas_for_write
  write_from write regions none = throw panicked
  write_from write regions (some primary) = do
    write primary.client
    send_all write (select_replicas_for_write primary.name regions)

  -- `put`, `put_layer` and `register_node_layers` are the same but for the write.
  unfoldable pub write_to :
      (RemoteCache R → Action R (Unit {0})) → List (RegionNode R) → Action R (Unit {0})
  unfolding write_from
  write_to write regions = write_from write regions (select_primary_for_write regions)

module _ {R : Type 0} {A : Type 0} where
  -- `Ok(Some(..))` is returned; all else goes on, an error too.
  abbrev pub unless_found : Result (Option A) → Action R (Option A) → Action R (Option A)
  unless_found (ok (some a)) rest = pure (some a)
  unless_found _ rest = rest

  unfoldable pub first_found :
      (RemoteCache R → Action R (Option A)) → List (RegionNode R) → Action R (Option A)
  first_found question [] s = pure none s
  first_found question (region ∷ regions) s =
      let (answer, s') = question region.client s in
      unless_found answer (first_found question regions) s'

-- `RouterRemoteCache` of src/remote_router/mod.rs, which asks the router.
abbrev pub router : {R : Type 0} → List (RegionNode R) → RemoteCache R
router regions = record {
  has = λ key. has_anywhere (λ c. c.has key) (select_nodes_for_read regions);
  get = λ key. first_found (λ c. c.get key) (select_nodes_for_read regions);
  put = λ key bytes. write_to (λ c. c.put key bytes) regions;
  has_layer = λ key. has_anywhere (λ c. c.has_layer key) (select_nodes_for_read regions);
  get_layer = λ key. first_found (λ c. c.get_layer key) (select_nodes_for_read regions);
  put_layer = λ key bytes. write_to (λ c. c.put_layer key bytes) regions;
  get_node_layers = λ key. first_found (λ c. c.get_node_layers key) (select_nodes_for_read regions);
  register_node_layers =
      λ key layers size. write_to (λ c. c.register_node_layers key layers size) regions;
}
