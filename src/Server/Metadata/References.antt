-- ===== src/Server/Metadata/References.antt =====
-- The count of references of a layer never falls below the number of times that nodes list it.
use memo_build.Prelude.{
  ℕ, ◌+◌, ◌≤◌, ◌<◌, ◌≡◌, refl, true, false, not, some, List, [], ◌∷◌, ◌++◌, inl, inr, arith,
  if◌then◌else◌, Bool-cases, filter, Text, text_eq, text_eq_iff, lookup, insert, remove,
}
use memo_build.Prelude.Int.{AtLeast, AtLeast-weaken, increment-AtLeast, decrement-AtLeast}
use memo_build.Server.Metadata.{
  LayerRow, Mapping, Db, is_of, is_in_table, inc_where, lists, dec_listed, is_referenced,
}

-- How often nodes list a layer.
abbrev pub uses : Text → List Mapping → ℕ
uses l [] = 0
uses l (m ∷ ms) = (if text_eq m.layer_hash l then 1 else 0) + uses l ms

abbrev pub AllCounted : List Mapping → List (Text × LayerRow) → Type 0
AllCounted ms [] = Unit
AllCounted ms ((h, row) ∷ rows) = AtLeast (uses h ms) row.ref_count × AllCounted ms rows

pub record IsCounted (db : Db) : Type 0 where
  pub counted : AllCounted db.node_to_layers db.cache_layers
  pub present :
      (l : Text) → 0 < uses l db.node_to_layers → is_in_table (lookup l db.cache_layers) ≡ true

pub uses-append : (l : Text) (ms ns : List Mapping) → uses l (ms ++ ns) ≡ uses l ms + uses l ns
uses-append l [] ns = omega arith
uses-append l (m ∷ ms) ns = omega (arith, uses-append l ms ns)

-- Deleting the mappings of a node takes its uses away, at least one if it lists the layer.
pub uses-filter :
    (node l : Text) (ms : List Mapping)
    → uses l (filter (λ m. not (is_of node m)) ms) + (if lists node ms l then 1 else 0) ≤ uses l ms
uses-filter node l [] = omega arith
uses-filter node l (m ∷ ms) = ground (arith, uses-filter node l ms)

pub uses-is_referenced : (l : Text) (ms : List Mapping) → is_referenced ms l ≡ false → uses l ms ≡ 0
uses-is_referenced l [] h = refl
uses-is_referenced l (m ∷ ms) h = ground (arith, uses-is_referenced l ms)

pub is_referenced-uses : (l : Text) (ms : List Mapping) → uses l ms ≡ 0 → is_referenced ms l ≡ false
is_referenced-uses l [] h = refl
is_referenced-uses l (m ∷ ms) h = ground (arith, is_referenced-uses l ms)

-- What a table loses or changes keeps the counts, if the uses fall with them.
pub AllCounted-weaken :
    (ms ns : List Mapping) (rows : List (Text × LayerRow))
    → ((l : Text) → uses l ns ≤ uses l ms)
    → AllCounted ms rows
    → AllCounted ns rows
AllCounted-weaken ms ns [] le all = tt
AllCounted-weaken ms ns ((h, row) ∷ rows) le all =
    (AtLeast-weaken _ _ row.ref_count (le h) all.0, AllCounted-weaken ms ns rows le all.1)

pub inc_where-AllCounted :
    (m : Mapping) (ms : List Mapping) (rows : List (Text × LayerRow))
    → AllCounted ms rows
    → AllCounted (ms ++ m ∷ []) (inc_where m.layer_hash rows)
inc_where-AllCounted m ms [] all = tt
inc_where-AllCounted m ms ((h, row) ∷ rows) all =
    let rest = inc_where-AllCounted m ms rows all.1 in
    elim (Bool-cases (text_eq h m.layer_hash)) [
      | inl same ↦
          let eq : h ≡ m.layer_hash = (text_eq_iff h m.layer_hash).0 same in
          let one : uses h (ms ++ m ∷ []) ≡ uses h ms + 1 =
            ground (arith, uses-append h ms (m ∷ []), text_eq_iff m.layer_hash h) in
          rw (same, one) (increment-AtLeast (uses h ms) row.ref_count all.0, rest)
      | inr other ↦
          let same : uses h (ms ++ m ∷ []) ≡ uses h ms = ground (
            arith,
            uses-append h ms (m ∷ []),
            text_eq_iff m.layer_hash h,
            text_eq_iff h m.layer_hash,
          ) in
          rw (other, same) (all.0, rest)
    ]

pub dec_listed-AllCounted :
    (node : Text) (all_ms ms : List Mapping) (rows : List (Text × LayerRow))
    → ((l : Text) → uses l ms + (if lists node all_ms l then 1 else 0) ≤ uses l all_ms)
    → AllCounted all_ms rows
    → AllCounted ms (dec_listed node all_ms rows)
dec_listed-AllCounted node all_ms ms [] le all = tt
dec_listed-AllCounted node all_ms ms ((h, row) ∷ rows) le all =
    let rest = dec_listed-AllCounted node all_ms ms rows le all.1 in
    elim (Bool-cases (lists node all_ms h)) [
      | inl listed ↦
          let fewer = rw listed at (le h) in
          rw listed (
            decrement-AtLeast (uses h ms) row.ref_count
                (AtLeast-weaken _ _ row.ref_count fewer all.0),
            rest,
          )
      | inr other ↦
          let fewer : uses h ms ≤ uses h all_ms = ground (arith, le h) in
          rw other (AtLeast-weaken _ _ row.ref_count fewer all.0, rest)
    ]

pub AllCounted-lookup :
    (ms : List Mapping) (rows : List (Text × LayerRow)) (l : Text) (row : LayerRow)
    → AllCounted ms rows
    → lookup l rows ≡ some row
    → AtLeast (uses l ms) row.ref_count
unfolding lookup
AllCounted-lookup ms [] l row all found = cc
AllCounted-lookup ms ((h, r) ∷ rows) l row all found = elim (Bool-cases (text_eq h l)) [
  | inl same ↦
      let eq : h ≡ l = (text_eq_iff h l).0 same in
      let is : r ≡ row = ground arith in rw (← eq, ← is) (all.0)
  | inr other ↦ AllCounted-lookup ms rows l row all.1 (ground arith)
]

pub insert-AllCounted :
    (ms : List Mapping) (rows : List (Text × LayerRow)) (l : Text) (row : LayerRow)
    → AllCounted ms rows
    → AtLeast (uses l ms) row.ref_count
    → AllCounted ms (insert l row rows)
unfolding insert
insert-AllCounted ms [] l row all new = (new, tt)
insert-AllCounted ms ((h, r) ∷ rows) l row all new = elim (Bool-cases (text_eq h l)) [
  | inl same ↦ rw same (new, all.1)
  | inr other ↦ rw other (all.0, insert-AllCounted ms rows l row all.1 new)
]

pub remove-AllCounted :
    (ms : List Mapping) (rows : List (Text × LayerRow)) (l : Text)
    → AllCounted ms rows
    → AllCounted ms (remove l rows)
unfolding remove
remove-AllCounted ms [] l all = tt
remove-AllCounted ms ((h, r) ∷ rows) l all = elim (Bool-cases (text_eq h l)) [
  | inl same ↦ rw same (remove-AllCounted ms rows l all.1)
  | inr other ↦ rw other (all.0, remove-AllCounted ms rows l all.1)
]

pub in_table-inc_where :
    (hash l : Text) (rows : List (Text × LayerRow))
    → is_in_table (lookup l (inc_where hash rows)) ≡ is_in_table (lookup l rows)
unfolding lookup
in_table-inc_where hash l [] = refl
in_table-inc_where hash l ((h, row) ∷ rows) = ground (arith, in_table-inc_where hash l rows)

pub in_table-dec_listed :
    (node l : Text) (ms : List Mapping) (rows : List (Text × LayerRow))
    → is_in_table (lookup l (dec_listed node ms rows)) ≡ is_in_table (lookup l rows)
unfolding lookup
in_table-dec_listed node l ms [] = refl
in_table-dec_listed node l ms ((h, row) ∷ rows) = ground (arith, in_table-dec_listed node l ms rows)
