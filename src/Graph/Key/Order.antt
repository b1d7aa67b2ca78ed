-- ===== src/Graph/Key/Order.antt =====
-- The key of a node does not depend on the order in which its dependencies and its environment are
-- listed.
use mathlib.Core.List.{Perm}
use memo_build.Prelude.{
  text_leb, ℕ, ◌≡◌, refl, ap, ◌∙◌, true, Option, List, [], ◌∷◌, map, ◌||◌, arith, Text, lookup,
}
use memo_build.Prelude.Sorting.{IsTotalOrder, sort_by-Perm}
use memo_build.Graph.{NodeKind, Node}
use memo_build.Graph.Key.{sort_texts, concat_texts, assignment, keys, env_bytes, compute_node_key}

text_leb-total : (s t : Text) → (text_leb s t || text_leb t s) ≡ true
unfolding text_leb
text_leb-total [] t = refl
text_leb-total (a ∷ s) [] = ground arith
text_leb-total (a ∷ s) (b ∷ t) = ground (arith, text_leb-total s t)

text_leb-antisym : (s t : Text) → text_leb s t ≡ true → text_leb t s ≡ true → s ≡ t
unfolding text_leb
text_leb-antisym [] [] le ge = refl
text_leb-antisym [] (b ∷ t) le ge = ground arith
text_leb-antisym (a ∷ s) [] le ge = ground arith
text_leb-antisym (a ∷ s) (b ∷ t) le ge = ground (arith, text_leb-antisym s t)

text_leb_trans : (s t u : Text) → text_leb s t ≡ true → text_leb t u ≡ true → text_leb s u ≡ true
unfolding text_leb
text_leb_trans [] t u st tu = refl
text_leb_trans (a ∷ s) [] u st tu = ground arith
text_leb_trans (a ∷ s) (b ∷ t) [] st tu = ground arith
text_leb_trans (a ∷ s) (b ∷ t) (c ∷ u) st tu = ground (arith, text_leb_trans s t u)

pub text_leb-IsTotalOrder : IsTotalOrder text_leb
text_leb-IsTotalOrder = record {
  total = text_leb-total;
  antisym = text_leb-antisym;
  trans = text_leb_trans;
}

sort_texts-Perm : (xs ys : List Text) → Perm xs ys → sort_texts xs ≡ sort_texts ys
unfolding sort_texts
sort_texts-Perm xs ys perm = sort_by-Perm text_leb xs ys text_leb-IsTotalOrder perm

assignments-cong :
    (env env' : List (Text × Text)) (ks : List Text)
    → ((key : Text) → lookup key env ≡ lookup key env')
    → map (λ key. assignment key (lookup key env)) ks
      ≡ map (λ key. assignment key (lookup key env')) ks
assignments-cong env env' [] same = refl
assignments-cong env env' (k ∷ ks) same = rw (same k, assignments-cong env env' ks same) refl

env_bytes-Perm :
    (env env' : List (Text × Text))
    → Perm (keys env) (keys env')
    → ((key : Text) → lookup key env ≡ lookup key env')
    → env_bytes env ≡ env_bytes env'
unfolding env_bytes
env_bytes-Perm env env' perm same = ap concat_texts (
    assignments-cong env env' (sort_texts (keys env)) same
    ∙ ap (map (λ key. assignment key (lookup key env')))
        (sort_texts-Perm (keys env) (keys env') perm))

-- A node's key stays the same if the hashes of its dependencies come in another order, and if its
-- environment is another list of entries with the same keys and the same value for each.
pub compute_node_key-Perm :
    (blake3_hex : Text → Text) (debug_kind : NodeKind → Text) (to_string : ℕ → Text) (node : Node)
    (env : List (Text × Text)) (deps deps' : List Text) (context_hash fingerprint : Option Text)
    → Perm deps deps'
    → Perm (keys node.env) (keys env)
    → ((key : Text) → lookup key node.env ≡ lookup key env)
    → compute_node_key blake3_hex debug_kind to_string node deps context_hash fingerprint
      ≡ compute_node_key blake3_hex debug_kind to_string
          (record node { env = env })
          deps'
          context_hash
          fingerprint
unfolding compute_node_key
compute_node_key-Perm blake3_hex debug_kind to_string node env deps deps' context_hash fingerprint
      ds ks same =
    rw (sort_texts-Perm deps deps' ds, env_bytes-Perm node.env env ks same) refl
