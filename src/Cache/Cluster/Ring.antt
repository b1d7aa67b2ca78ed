-- ===== src/Cache/Cluster/Ring.antt =====
-- src/cache/cluster.rs, `ConsistentHashRing`. The standard library's hash of a text and its decimal
-- digits are parameters.
pub mod Sorted
pub mod Remap
use memo_build.Prelude.{
  ℕ, zero, suc, ◌+◌, ◌≤◌, Bool, true, false, not, Option, none, some, List, [], ◌∷◌, ◌++◌, leb,
  if◌then◌else◌, filter, Text, codes, text_eq,
}

-- The entries (hash, node) of the ring, in the order of their hashes.
pub record ConsistentHashRing : Type 0 where
  pub nodes : List (ℕ × Text)
  pub replicas : ℕ

-- `sort_by_key` by the hash, which is stable.
unfoldable pub insert_entry : ℕ × Text → List (ℕ × Text) → List (ℕ × Text)
insert_entry e [] = e ∷ []
insert_entry e (y ∷ ys) =
    let rest = insert_entry e ys in if leb (e.0) (y.0) then e ∷ y ∷ ys else y ∷ rest

unfoldable pub sort_entries : List (ℕ × Text) → List (ℕ × Text)
sort_entries [] = []
sort_entries (e ∷ es) = insert_entry e (sort_entries es)

abbrev pub is_other : Text → ℕ × Text → Bool
is_other node_id e = not (text_eq (e.1) node_id)

unfoldable pub remove_node : Text → ConsistentHashRing → ConsistentHashRing
remove_node node_id ring = record ring { nodes = filter (is_other node_id) ring.nodes }

-- The loop over the entries of the ring.
unfoldable pub first_from : ℕ → List (ℕ × Text) → Option Text
first_from h [] = none
first_from h (e ∷ es) = let rest = first_from h es in if leb h (e.0) then some (e.1) else rest

abbrev pub or_first : Text → Option Text → Option Text
or_first first none = some first
or_first first (some id) = some id

-- The owner of the first entry from the hash on, or else of the first entry of all.
unfoldable pub owner : ℕ → List (ℕ × Text) → Option Text
unfolding first_from
owner h [] = none
owner h (e ∷ es) = or_first (e.1) (first_from h (e ∷ es))

module _ (hash : Text → ℕ) (to_string : ℕ → Text) where
  unfoldable pub get_node : Text → ConsistentHashRing → Option Text
  unfolding owner
  get_node key ring = owner (hash key) ring.nodes

  -- The rounds of the loop over the replicas from number `i` on.
  unfoldable pub virtual_nodes : Text → ℕ → ℕ → List (ℕ × Text)
  virtual_nodes node_id zero i = []
  virtual_nodes node_id (suc rounds) i =
      (hash (node_id ++ codes "-" ++ to_string i), node_id) ∷ virtual_nodes node_id rounds (i + 1)

  unfoldable pub add_node : Text → ConsistentHashRing → ConsistentHashRing
  unfolding sort_entries virtual_nodes
  add_node node_id ring = record ring {
    nodes = sort_entries (ring.nodes ++ virtual_nodes node_id ring.replicas 0);
  }
