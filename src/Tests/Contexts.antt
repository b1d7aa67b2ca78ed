-- ===== src/Tests/Contexts.antt =====
-- A build context of three entries, walked in two orders.
use mathlib.Core.List.Perm
use memo_build.Prelude.{◌≡◌, true, some, List, [], ◌∷◌, ◌++◌, Text, codes, text_leb, text_eq}
use memo_build.Prelude.Results.{ok}
use memo_build.Graph.Key.Order.{text_leb-IsTotalOrder}
use memo_build.Hasher.{DirEntry, other, a_file, Disk, directory, hash_dir}
use memo_build.Hasher.Ignore.{IgnoreRules, parse_rules, is_ignored}
use memo_build.Hasher.Determinism.{hash_dir-Perm}

abbrev blake3 : Text → Text
blake3 bytes = codes "hash of " ++ bytes

abbrev rules : IgnoreRules
rules = parse_rules (λ line. true) (codes "# logs\nb.log\n")

abbrev context : Disk
context = record {
  walk = λ root. other (codes "sub") ∷ a_file (codes "b.log") ∷ a_file (codes "a.txt") ∷ [];
  relative = λ root path. path;
  reads = λ path. some (ok (codes "content of ") ∷ ok path ∷ ok [] ∷ []);
  kind = λ path. directory;
  leb = text_leb;
}

abbrev backward : Text → List DirEntry
backward root = a_file (codes "b.log") ∷ other (codes "sub") ∷ a_file (codes "a.txt") ∷ []

hash_dir-Perm_example :
    hash_dir blake3 context (is_ignored text_eq rules) (codes "ctx")
    ≡ hash_dir blake3 (record context { walk = backward }) (is_ignored text_eq rules) (codes "ctx")
hash_dir-Perm_example =
    hash_dir-Perm blake3 context (is_ignored text_eq rules) (codes "ctx") backward
      text_leb-IsTotalOrder
      (Perm.swap (a_file (codes "b.log")) (other (codes "sub")) (a_file (codes "a.txt") ∷ []))
