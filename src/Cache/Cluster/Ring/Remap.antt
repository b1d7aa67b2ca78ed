-- ===== src/Cache/Cluster/Ring/Remap.antt =====
-- Which keys change their node when a node joins the ring or leaves it.
use memo_build.Prelude.{
  filter-append, ℕ, zero, suc, ◌+◌, ◌≡◌, ◌⊎◌, refl, sym, ap, ◌∙◌, true, false, none, some, List, [],
  ◌∷◌, ◌++◌, leb, arith, inl, inr, Bool-cases, Option-cases, some_inj, filter, Text, text_eq,
  text_eq_refl,
}
use mathlib.Core.List.{append-nil}
use memo_build.Cache.Cluster.Ring.{
  ConsistentHashRing, sort_entries, is_other, remove_node, first_from, or_first, owner, get_node,
  virtual_nodes, add_node,
}
use memo_build.Cache.Cluster.Ring.Sorted.{IsSorted, sort_entries-sorted, filter-sort_entries}

-- The entries name no node `id`.
abbrev pub IsAbsent : Text → List (ℕ × Text) → Type 0
IsAbsent id [] = Unit
IsAbsent id (e ∷ es) = (is_other id e ≡ true) × IsAbsent id es

filter-IsAbsent : (id : Text) (es : List (ℕ × Text)) → IsAbsent id es → filter (is_other id) es ≡ es
filter-IsAbsent id [] absent = refl
filter-IsAbsent id (e ∷ es) absent = rw (absent.0, filter-IsAbsent id es absent.1) refl

IsAbsent-filter : (id : Text) (es : List (ℕ × Text)) → IsAbsent id (filter (is_other id) es)
IsAbsent-filter id [] = tt
IsAbsent-filter id (e ∷ es) = elim (Bool-cases (is_other id e)) [
  | inl keep ↦ rw keep (keep, IsAbsent-filter id es)
  | inr drop ↦ rw drop (IsAbsent-filter id es)
]

module _ (id : Text) where
  first_from-filter :
      (h : ℕ) (es : List (ℕ × Text)) (o : Text)
      → first_from h es ≡ some o
      → text_eq o id ≡ false
      → first_from h (filter (is_other id) es) ≡ some o
  unfolding first_from
  first_from-filter h [] o found differs = cc
  first_from-filter h (e ∷ es) o found differs = elim (Bool-cases (leb h (e.0))) [
    | inl here ↦
        let same : e.1 ≡ o = ground arith in
        let keep : is_other id e ≡ true = rw (same, differs) refl in
        rw (keep, here) (ap (λ t. some t) same)
    | inr later ↦ ground (arith, first_from-filter h es o)
  ]

  first_from-none :
      (h : ℕ) (es : List (ℕ × Text))
      → first_from h es ≡ none
      → first_from h (filter (is_other id) es) ≡ none
  unfolding first_from
  first_from-none h [] found = refl
  first_from-none h (e ∷ es) found = ground (arith, first_from-none h es)

  first_from-IsAbsent :
      (h : ℕ) (es : List (ℕ × Text)) (o : Text)
      → IsAbsent id es
      → first_from h es ≡ some o
      → text_eq o id ≡ false
  unfolding first_from
  first_from-IsAbsent h [] o absent found = cc
  first_from-IsAbsent h (e ∷ es) o absent found = elim (Bool-cases (leb h (e.0))) [
    | inl here ↦ let same : e.1 ≡ o = ground arith in rw (← same) (ground (arith, absent.0))
    | inr later ↦ first_from-IsAbsent h es o absent.1 (ground arith)
  ]

  owner-first_from :
      (h : ℕ) (es : List (ℕ × Text)) (o : Text) → first_from h es ≡ some o → owner h es ≡ some o
  unfolding owner
  owner-first_from h [] o found = cc
  owner-first_from h (e ∷ es) o found = ap (or_first (e.1)) found

  owner-filter :
      (h : ℕ) (es : List (ℕ × Text)) (o : Text)
      → owner h es ≡ some o
      → text_eq o id ≡ false
      → owner h (filter (is_other id) es) ≡ some o
  unfolding owner
  owner-filter h [] o owns differs = cc
  owner-filter h (e ∷ es) o owns differs = elim (Option-cases (first_from h (e ∷ es))) [
    | inl wraps ↦
        let same : e.1 ≡ o = some_inj (sym (ap (or_first (e.1)) wraps) ∙ owns) in
        let keep : is_other id e ≡ true = rw (same, differs) refl in
        let first : filter (is_other id) (e ∷ es) ≡ e ∷ filter (is_other id) es = rw keep refl in
        let wraps' = rw first at (first_from-none h (e ∷ es) wraps) in
        ap (owner h) first ∙ ap (or_first (e.1)) wraps' ∙ ap (λ t. some t) same
    | inr (o', found) ↦
        let same : o' ≡ o = some_inj (sym (ap (or_first (e.1)) found) ∙ owns) in
        owner-first_from h (filter (is_other id) (e ∷ es)) o
          (first_from-filter h (e ∷ es) o (found ∙ ap (λ t. some t) same) differs)
  ]

module _ (hash : Text → ℕ) (to_string : ℕ → Text) (id : Text) (ring : ConsistentHashRing) where
  -- When a node leaves the ring, a key that another node owned stays with that node.
  pub get_node-remove_node :
      (key o : Text)
      → get_node hash to_string key ring ≡ some o
      → text_eq o id ≡ false
      → get_node hash to_string key (remove_node id ring) ≡ some o
  unfolding get_node remove_node
  get_node-remove_node key o owns differs = owner-filter id (hash key) ring.nodes o owns differs

  virtual_nodes-filter :
      (rounds i : ℕ) → filter (is_other id) (virtual_nodes hash to_string id rounds i) ≡ []
  unfolding virtual_nodes
  virtual_nodes-filter zero i = refl
  virtual_nodes-filter (suc rounds) i =
      ground (arith, text_eq_refl id, virtual_nodes-filter rounds (i + 1))

  -- A node that joins a sorted ring without it and leaves again leaves the ring as it was.
  pub remove_node-add_node :
      IsSorted ring.nodes
      → IsAbsent id ring.nodes
      → remove_node id (add_node hash to_string id ring) ≡ ring
  unfolding remove_node add_node
  remove_node-add_node sorted absent =
      let added = virtual_nodes hash to_string id ring.replicas 0 in
      let back : filter (is_other id) (sort_entries (ring.nodes ++ added)) ≡ ring.nodes =
        filter-sort_entries (is_other id) (ring.nodes ++ added)
        ∙ ap sort_entries (
            filter-append (is_other id) ring.nodes added
            ∙ (rw (virtual_nodes-filter, filter-IsAbsent id ring.nodes absent)
                (append-nil ring.nodes)))
        ∙ sort_entries-sorted ring.nodes sorted in
      ap (λ ns. record ring { nodes = ns }) back

  -- When a node joins a sorted ring without it, a key moves to the new node or stays where it was.
  pub get_node-add_node :
      (key o : Text)
      → IsSorted ring.nodes
      → IsAbsent id ring.nodes
      → get_node hash to_string key (add_node hash to_string id ring) ≡ some o
      → (text_eq o id ≡ true) ⊎ (get_node hash to_string key ring ≡ some o)
  unfolding get_node remove_node
  get_node-add_node key o sorted absent owns = elim (Bool-cases (text_eq o id)) [
    | inl new ↦ inl new
    | inr differs ↦ inr (
        rw
          (ap (λ (r : ConsistentHashRing). get_node hash to_string key r)
            (remove_node-add_node sorted absent))
          at (owner-filter id (hash key) (add_node hash to_string id ring).nodes o owns differs))
  ]
