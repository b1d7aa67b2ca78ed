-- ===== src/Cache/Cluster/Membership/Replicas.antt =====
-- The replicas of a key.
use memo_build.Prelude.{
  ℕ, zero, suc, ◌+◌, ◌%◌, ◌≤◌, ◌≡◌, refl, sym, subst, Bool, true, false, not, ◌&&◌, ◌||◌, some,
  List, [], ◌∷◌, ◌++◌, arith, inl, inr, Bool-cases, length, length-append, Text, text_eq,
  text_eq_iff, contains_text,
}
use memo_build.Cache.Cluster.Membership.{
  CacheCluster, collect_replicas, add_replica, id_at, position, replicas_of, get_replica_nodes,
  get_primary_node,
}

abbrev pub distinct_texts : List Text → Bool
distinct_texts [] = true
distinct_texts (x ∷ xs) = not (contains_text xs x) && distinct_texts xs

contains_text-snoc :
    (xs : List Text) (a b : Text)
    → contains_text (xs ++ a ∷ []) b ≡ (contains_text xs b || text_eq a b)
contains_text-snoc [] a b = ground arith
contains_text-snoc (x ∷ xs) a b = ground (arith, contains_text-snoc xs a b)

distinct_texts-snoc :
    (xs : List Text) (a : Text)
    → distinct_texts (xs ++ a ∷ []) ≡ (distinct_texts xs && not (contains_text xs a))
distinct_texts-snoc [] a = ground arith
distinct_texts-snoc (x ∷ xs) a =
    ground
      (arith, contains_text-snoc xs a x, distinct_texts-snoc xs a, text_eq_iff x a, text_eq_iff a x)

-- `replicas` are different nodes, at most `most` of them, and `primary` is none of them.
pub record AreReplicas (primary : Text) (most : ℕ) (replicas : List Text) : Type 0 where
  pub once : distinct_texts replicas ≡ true
  pub no_primary : contains_text replicas primary ≡ false
  pub few : length replicas ≤ most

add_replica-AreReplicas :
    (primary id : Text) (most : ℕ) (replicas : List Text)
    → AreReplicas primary most replicas
    → AreReplicas primary (most + 1) (add_replica primary id replicas)
add_replica-AreReplicas primary id most replicas a =
    elim (Bool-cases (not (text_eq id primary) && not (contains_text replicas id))) [
      | inl new ↦ rw new (record {
        once = ground (arith, distinct_texts-snoc replicas id, a.once);
        no_primary = ground (arith, contains_text-snoc replicas id primary, a.no_primary);
        few = omega (arith, length-append replicas (id ∷ []), a.few);
      })
      | inr old ↦
          rw old (record { once = a.once; no_primary = a.no_primary; few = omega (arith, a.few) })
    ]

collect_replicas-AreReplicas :
    (es : List (ℕ × Text)) (primary : Text) (rounds i most : ℕ) (replicas : List Text)
    → AreReplicas primary most replicas
    → AreReplicas primary (most + rounds) (collect_replicas es primary rounds i replicas)
unfolding collect_replicas
collect_replicas-AreReplicas es primary zero i most replicas a = record {
  once = a.once;
  no_primary = a.no_primary;
  few = omega (arith, a.few);
}
collect_replicas-AreReplicas es primary (suc rounds) i most replicas a =
    let next = (most + 1) + rounds in
    let same : (most + 1) + rounds ≡ most + suc rounds = omega arith in
    rw same at (
      collect_replicas-AreReplicas es primary rounds (i + 1) (most + 1) _ (
        add_replica-AreReplicas primary (id_at es ((position primary es + i) % length es)) most
          replicas a))

-- The replicas of a key are different nodes, no more than the replication factor, and the primary
-- node of the key is none of them.
pub get_replica_nodes-AreReplicas :
    (hash : Text → ℕ) (to_string : ℕ → Text) (c : CacheCluster) (key primary : Text)
    → get_primary_node hash to_string key c ≡ some primary
    → AreReplicas primary c.replication_factor (get_replica_nodes hash to_string key c)
unfolding get_replica_nodes replicas_of get_primary_node
get_replica_nodes-AreReplicas hash to_string c key primary owns =
    let a =
      collect_replicas-AreReplicas c.ring.nodes primary c.replication_factor 1 0 []
        (record { once = refl; no_primary = refl; few = omega arith }) in
    subst (λ o. AreReplicas primary c.replication_factor (replicas_of c o)) (sym owns)
      (record { once = a.once; no_primary = a.no_primary; few = omega (arith, a.few) })
