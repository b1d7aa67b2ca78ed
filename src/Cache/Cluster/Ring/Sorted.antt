-- ===== src/Cache/Cluster/Ring/Sorted.antt =====
-- The order of the ring, and what leaves it as it is.
use memo_build.Prelude.{
  ℕ, ◌≤◌, ◌≡◌, refl, Bool, true, List, [], ◌∷◌, leb, arith, inl, inr, Bool-cases, if◌then◌else◌,
  filter, Text,
}
use memo_build.Cache.Cluster.Ring.{insert_entry, sort_entries}

-- All hashes are `h` or more.
abbrev pub AllFrom : ℕ → List (ℕ × Text) → Type 0
AllFrom h [] = Unit
AllFrom h (e ∷ es) = (h ≤ e.0) × AllFrom h es

abbrev pub IsSorted : List (ℕ × Text) → Type 0
IsSorted [] = Unit
IsSorted (e ∷ es) = AllFrom (e.0) es × IsSorted es

AllFrom-weaken : (g h : ℕ) (es : List (ℕ × Text)) → g ≤ h → AllFrom h es → AllFrom g es
AllFrom-weaken g h [] le all = tt
AllFrom-weaken g h (e ∷ es) le all = (omega (arith, all.0), AllFrom-weaken g h es le all.1)

insert_entry-AllFrom :
    (h : ℕ) (e : ℕ × Text) (es : List (ℕ × Text))
    → h ≤ e.0
    → AllFrom h es
    → AllFrom h (insert_entry e es)
unfolding insert_entry
insert_entry-AllFrom h e [] le all = (le, tt)
insert_entry-AllFrom h e (y ∷ ys) le all = elim (Bool-cases (leb (e.0) (y.0))) [
  | inl first ↦ rw first (le, all)
  | inr later ↦ rw later (all.0, insert_entry-AllFrom h e ys le all.1)
]

insert_entry-IsSorted :
    (e : ℕ × Text) (es : List (ℕ × Text)) → IsSorted es → IsSorted (insert_entry e es)
unfolding insert_entry
insert_entry-IsSorted e [] sorted = (tt, tt)
insert_entry-IsSorted e (y ∷ ys) sorted = elim (Bool-cases (leb (e.0) (y.0))) [
  | inl first ↦
      let le : e.0 ≤ y.0 = ground arith in
      rw first ((le, AllFrom-weaken (e.0) (y.0) ys le sorted.0), sorted)
  | inr later ↦
      let le : y.0 ≤ e.0 = ground arith in
      rw later (insert_entry-AllFrom (y.0) e ys le sorted.0, insert_entry-IsSorted e ys sorted.1)
]

pub sort_entries-IsSorted : (es : List (ℕ × Text)) → IsSorted (sort_entries es)
unfolding sort_entries
sort_entries-IsSorted [] = tt
sort_entries-IsSorted (e ∷ es) =
    insert_entry-IsSorted e (sort_entries es) (sort_entries-IsSorted es)

insert_entry-front :
    (e : ℕ × Text) (es : List (ℕ × Text)) → AllFrom (e.0) es → insert_entry e es ≡ e ∷ es
unfolding insert_entry
insert_entry-front e [] all = refl
insert_entry-front e (y ∷ ys) all =
    let first : leb (e.0) (y.0) ≡ true = ground (arith, all.0) in rw first refl

pub sort_entries-sorted : (es : List (ℕ × Text)) → IsSorted es → sort_entries es ≡ es
unfolding sort_entries
sort_entries-sorted [] sorted = refl
sort_entries-sorted (e ∷ es) sorted =
    rw (sort_entries-sorted es sorted.1) (insert_entry-front e es sorted.0)

module _ (p : ℕ × Text → Bool) where
  filter-AllFrom : (h : ℕ) (es : List (ℕ × Text)) → AllFrom h es → AllFrom h (filter p es)
  filter-AllFrom h [] all = tt
  filter-AllFrom h (e ∷ es) all = elim (Bool-cases (p e)) [
    | inl keep ↦ rw keep (all.0, filter-AllFrom h es all.1)
    | inr drop ↦ rw drop (filter-AllFrom h es all.1)
  ]

  filter-insert_entry :
      (e : ℕ × Text) (es : List (ℕ × Text))
      → IsSorted es
      → filter p (insert_entry e es) ≡ (if p e then insert_entry e (filter p es) else filter p es)
  unfolding insert_entry
  filter-insert_entry e [] sorted = ground arith
  filter-insert_entry e (y ∷ ys) sorted = elim (Bool-cases (leb (e.0) (y.0))) [
    | inl first ↦
        let le : e.0 ≤ y.0 = ground arith in
        let all = filter-AllFrom (e.0) (y ∷ ys) (le, AllFrom-weaken (e.0) (y.0) ys le sorted.0) in
        rw (first, insert_entry-front e (filter p (y ∷ ys)) all) refl
    | inr later ↦ ground (arith, filter-insert_entry e ys sorted.1)
  ]

  pub filter-sort_entries :
      (es : List (ℕ × Text)) → filter p (sort_entries es) ≡ sort_entries (filter p es)
  unfolding sort_entries
  filter-sort_entries [] = refl
  filter-sort_entries (e ∷ es) = ground (
    arith,
    filter-insert_entry e (sort_entries es) (sort_entries-IsSorted es),
    filter-sort_entries es,
  )
