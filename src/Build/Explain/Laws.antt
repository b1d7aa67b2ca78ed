-- ===== src/Build/Explain/Laws.antt =====
-- What the explanation says after a build.
use memo_build.Prelude.{true, []}
use memo_build.Graph.{Node}
use memo_build.Cache.Local
use memo_build.Build.Explain.{Explanation}

-- What is said of a node whose artifact is there.
abbrev pub cached_entry : Node → Explanation
cached_entry node = record {
  name = node.name;
  id = node.id;
  is_cached = true;
  hash = node.hash;
  reasons = [];
  dirty_dependencies = [];
}
