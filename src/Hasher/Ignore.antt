-- ===== src/Hasher/Ignore.antt =====
-- src/hasher/ignore.rs, `IgnoreRules`. Which texts are patterns, and what they match, are parameters.
use memo_build.Prelude.{
  Bool, not, ◌&&◌, ◌||◌, List, [], ◌∷◌, ◌++◌, map, if◌then◌else◌, ◌==◌, filter, any, Text, codes,
  text_eq, lines, trim, is_empty, starts_with_code,
}

pub record IgnoreRules : Type 0 where
  pub patterns : List Text

abbrev pub no_rules : IgnoreRules
no_rules = record { patterns = [] }

abbrev pub is_rule : Text → Bool
is_rule line = not (is_empty line) && not (starts_with_code line b'#')

unfoldable pub parse_rules : (Text → Bool) → Text → IgnoreRules
unfolding lines trim
parse_rules is_pattern content = record {
  patterns = filter is_pattern (filter is_rule (map trim (lines content)));
}

-- The parents of a path, the longest first; `front` is what stands in front.
unfoldable pub parents : Text → Text → List Text
parents front [] = []
parents front (c ∷ path) =
    let rest = parents (front ++ c ∷ []) path in if c == b'/' then rest ++ front ∷ [] else rest

abbrev pub ancestors : Text → List Text
ancestors path = path ∷ parents [] path

-- The path or a parent of it, but for the empty path and `.`, matches a pattern.
unfoldable pub is_ignored : (Text → Text → Bool) → IgnoreRules → Text → Bool
unfolding parents
is_ignored matches rules path =
    any (λ a. not (is_empty a || text_eq a (codes ".")) && any (λ p. matches p a) rules.patterns)
      (ancestors path)
