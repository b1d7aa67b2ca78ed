-- ===== src/Build/Explain.antt =====
-- src/main.rs, `run_explain_cache`: which nodes are in the local cache, and why the others are not. What
-- is printed is a record for each node; `show` is the text of a number.
pub mod Laws
use memo_build.Prelude.{
  ℕ, ◌≡◌, refl, sym, ap, ◌∙◌, subst, Bool, true, false, not, ◌&&◌, ◌||◌, Option, none, some, List,
  [], ◌∷◌, ◌++◌, arith, map, if◌then◌else◌, length, get_elem?, contains_text, Text, codes, text_eq,
  contains_str, some_inj,
}
use memo_build.Graph.{Node, NodeMetadata, BuildGraph}
use memo_build.Cache.Local
use memo_build.Cache.Local.{LocalCache}
use memo_build.Build.{Context, prepared_graph}

pub record Explanation : Type 0 where
  pub name : Text
  pub id : ℕ
  pub is_cached : Bool
  pub hash : Text
  pub reasons : List Text
  pub dirty_dependencies : List Text

abbrev pub is_wanted : (ℕ → Text) → Option Text → Node → Bool
is_wanted show none node = true
is_wanted show (some target) node = contains_str node.name target || text_eq (show node.id) target

abbrev is_given : Option Text → Bool
is_given none = false
is_given (some path) = true

abbrev is_filled : {A : Type 0} → List A → Bool
is_filled [] = false
is_filled (x ∷ xs) = true

abbrev cons_dirty : LocalCache → Option Node → Option (List Text) → Option (List Text)
cons_dirty cache none rest = none
cons_dirty cache (some dep) none = none
cons_dirty cache (some dep) (some names) =
    if Local.exists dep.hash cache then some names else some (dep.name ∷ names)

-- The names of the dependencies that are not in the cache; an index out of range panics.
unfoldable pub dirty_deps : LocalCache → List Node → List ℕ → Option (List Text)
dirty_deps cache nodes [] = some []
dirty_deps cache nodes (id ∷ ids) =
    cons_dirty cache (get_elem? nodes id) (dirty_deps cache nodes ids)

unfoldable pub reasons_of : Node → List Text → List Text
reasons_of node names =
    (if is_given node.source_path then codes "Source files changed or untracked" ∷ [] else [])
    ++ (if is_filled node.metadata.extra_source_paths
        then codes "AI-detected dependencies changed" ∷ []
        else [])
    ++ (if is_filled names then codes "Dependencies are dirty (recursive)" ∷ [] else [])

abbrev explained : Node → Option (List Text) → Option Explanation
explained node none = none
explained node (some names) = some (record {
  name = node.name;
  id = node.id;
  is_cached = false;
  hash = node.hash;
  reasons = reasons_of node names;
  dirty_dependencies = names;
})

unfoldable pub explain_node : LocalCache → List Node → Node → Option Explanation
unfolding dirty_deps reasons_of
explain_node cache nodes node =
    if Local.exists node.hash cache
    then some (record {
      name = node.name;
      id = node.id;
      is_cached = true;
      hash = node.hash;
      reasons = [];
      dirty_dependencies = [];
    })
    else explained node (dirty_deps cache nodes node.deps)

abbrev cons_explanation : Option Explanation → Option (List Explanation) → Option (List Explanation)
cons_explanation none rest = none
cons_explanation (some e) none = none
cons_explanation (some e) (some es) = some (e ∷ es)

module _ (show : ℕ → Text) (target : Option Text) (cache : LocalCache) (nodes : List Node) where
  -- The loop over the nodes.
  unfoldable pub explain_nodes : List Node → Option (List Explanation)
  unfolding explain_node
  explain_nodes [] = some []
  explain_nodes (node ∷ rest) =
      let others = explain_nodes rest in
      if is_wanted show target node
      then cons_explanation (explain_node cache nodes node) others
      else others

unfoldable pub run_explain_cache :
    {R W : Type 0}
    → Context R W
    → (ℕ → Text)
    → Text
    → Text
    → Option Text
    → LocalCache
    → Option (List Explanation)
unfolding explain_nodes
run_explain_cache ctx show context_dir dockerfile target cache =
    let graph = prepared_graph ctx context_dir dockerfile in
    explain_nodes show target cache graph.nodes graph.nodes
