-- ===== src/Server/Metadata/Layers.antt =====
-- The layers of a node, read back after they were registered.
use mathlib.Core.List.{append-nil, append_assoc}
use memo_build.Prelude.{
  filter-append, ℕ, ◌+◌, ◌≤◌, ◌≡◌, ◌⊎◌, refl, sym, ap, ◌∙◌, Bool, true, false, not, ◌&&◌, ◌||◌,
  some, List, [], ◌∷◌, ◌++◌, map, inl, inr, arith, Bool-cases, filter, Text, text_eq_refl, lookup,
  lookup-insert,
}
use memo_build.Prelude.Results.{ok, err, constraint_failed}
use memo_build.Cache.Cluster.Ring.{sort_entries}
use memo_build.Cache.Cluster.Ring.Sorted.{AllFrom, IsSorted, sort_entries-sorted}
use memo_build.Server.Metadata.References.{in_table-inc_where}
use memo_build.Server.Metadata.{
  LayerRow, inc_where, Mapping, Db, on_conflict, touch_row, upsert_entry, is_of, is_in_table,
  add_mapping, add_mappings, delete_mappings, commit, new_row, insert_layered_node, layers_of,
  get_node_layers, slot, unless_empty,
}

-- The rows that the loop adds.
rows_of : Text → ℕ → List Text → List Mapping
rows_of hash i [] = []
rows_of hash i (l ∷ ls) =
    record { node_hash = hash; layer_hash = l; position = i } ∷ rows_of hash (i + 1) ls

abbrev IsOf : Bool → Text → List Mapping → Type 0
IsOf b hash [] = Unit
IsOf b hash (m ∷ ms) = (is_of hash m ≡ b) × IsOf b hash ms

rows_of-IsOf : (hash : Text) (i : ℕ) (ls : List Text) → IsOf true hash (rows_of hash i ls)
unfolding rows_of
rows_of-IsOf hash i [] = tt
rows_of-IsOf hash i (l ∷ ls) = (text_eq_refl hash, rows_of-IsOf hash (i + 1) ls)

filter-IsOf : (hash : Text) (ms : List Mapping) → IsOf true hash ms → filter (is_of hash) ms ≡ ms
filter-IsOf hash [] h = refl
filter-IsOf hash (m ∷ ms) h = rw (h.0, filter-IsOf hash ms h.1) refl

filter-deleted :
    (hash : Text) (ms : List Mapping)
    → filter (is_of hash) (filter (λ m. not (is_of hash m)) ms) ≡ []
filter-deleted hash [] = refl
filter-deleted hash (m ∷ ms) = elim (Bool-cases (is_of hash m)) [
  | inl own ↦ rw own (filter-deleted hash ms)
  | inr other ↦ rw (other, other) (filter-deleted hash ms)
]

slots_of-AllFrom :
    (hash : Text) (h i : ℕ) (ls : List Text) → h ≤ i → AllFrom h (map slot (rows_of hash i ls))
unfolding rows_of
slots_of-AllFrom hash h i [] le = tt
slots_of-AllFrom hash h i (l ∷ ls) le = (le, slots_of-AllFrom hash h (i + 1) ls (omega arith))

slots_of-IsSorted : (hash : Text) (i : ℕ) (ls : List Text) → IsSorted (map slot (rows_of hash i ls))
unfolding rows_of
slots_of-IsSorted hash i [] = tt
slots_of-IsSorted hash i (l ∷ ls) =
    (slots_of-AllFrom hash i (i + 1) ls (omega arith), slots_of-IsSorted hash (i + 1) ls)

slots_of-layers :
    (hash : Text) (i : ℕ) (ls : List Text)
    → map (λ (e : ℕ × Text). e.1) (map slot (rows_of hash i ls)) ≡ ls
unfolding rows_of
slots_of-layers hash i [] = refl
slots_of-layers hash i (l ∷ ls) = ap (λ t. l ∷ t) (slots_of-layers hash (i + 1) ls)

record Added (hash : Text) (i : ℕ) (ls : List Text) (db after : Db) : Type 0 where
  mappings : after.node_to_layers ≡ db.node_to_layers ++ rows_of hash i ls
  entries : after.cache_entries ≡ db.cache_entries

-- Whether SQLite refuses one of the layers since it is not there.
unfoldable pub refuses : Bool → List Text → List (Text × LayerRow) → Bool
unfolding lookup
refuses fk [] rows = false
refuses fk (l ∷ ls) rows = (fk && not (is_in_table (lookup l rows))) || refuses fk ls rows

refuses-inc_where :
    (fk : Bool) (k : Text) (ls : List Text) (rows : List (Text × LayerRow))
    → refuses fk ls (inc_where k rows) ≡ refuses fk ls rows
unfolding refuses
refuses-inc_where fk k [] rows = refl
refuses-inc_where fk k (l ∷ ls) rows =
    rw (in_table-inc_where k l rows, refuses-inc_where fk k ls rows) refl

add_mappings-Added :
    (fk : Bool) (hash : Text) (i : ℕ) (ls : List Text) (db : Db)
    → ((refuses fk ls db.cache_layers ≡ false)
        × ((after : Db) × (add_mappings fk hash i ls db ≡ ok after) × Added hash i ls db after))
      ⊎ ((refuses fk ls db.cache_layers ≡ true)
          × (add_mappings fk hash i ls db ≡ err constraint_failed))
unfolding add_mappings rows_of refuses
add_mappings-Added fk hash i [] db =
    inl (refl, (db, refl, record { mappings = sym (append-nil db.node_to_layers); entries = refl }))
add_mappings-Added fk hash i (l ∷ ls) db =
    elim (Bool-cases (fk && not (is_in_table (lookup l db.cache_layers)))) [
      | inl refused ↦ inr (rw refused refl, rw refused refl)
      | inr accepted ↦ elim (add_mappings-Added fk hash (i + 1) ls (add_mapping hash i l db)) [
        | inl (none_refused, (after, done, a)) ↦ inl (
          rw accepted (sym (refuses-inc_where fk l ls db.cache_layers) ∙ none_refused),
          (
            after,
            rw accepted done,
            record {
              mappings = a.mappings ∙ append_assoc db.node_to_layers _ _;
              entries = a.entries;
            },
          ),
        )
        | inr (refused, failed) ↦ inr (
          rw accepted (sym (refuses-inc_where fk l ls db.cache_layers) ∙ refused),
          rw accepted failed,
        )
      ]
    ]

unless_empty-true : (ls : List Text) → unless_empty ls true ≡ some ls
unless_empty-true [] = refl
unless_empty-true (l ∷ ls) = refl

get_node_layers-listed :
    (hash : Text) (ls : List Text) (db : Db)
    → layers_of hash db.node_to_layers ≡ ls
    → is_in_table (lookup hash db.cache_entries) ≡ true
    → get_node_layers hash db ≡ some ls
unfolding get_node_layers
get_node_layers-listed hash ls db listed there =
    ap (λ ms. unless_empty ms (is_in_table (lookup hash db.cache_entries))) listed
    ∙ ap (unless_empty ls) there
    ∙ unless_empty-true ls

-- Where SQLite enforces foreign keys and one of the layers is not there, registering the layers of a node
-- fails and leaves the database as it was. Else it succeeds, and the node's layers are then
-- read back as they were given, in their order and with their repetitions, whatever the node
-- listed before.
pub get_node_layers-insert :
    (fk : Bool) (now hash : Text) (size : ℕ) (ls : List Text) (db : Db)
    → ((refuses fk ls db.cache_layers ≡ true)
        × (insert_layered_node fk now hash size ls db ≡ (err constraint_failed, db)))
      ⊎ ((refuses fk ls db.cache_layers ≡ false)
          × ((insert_layered_node fk now hash size ls db).0 ≡ ok tt)
          × (get_node_layers hash (insert_layered_node fk now hash size ls db).1 ≡ some ls))
unfolding insert_layered_node layers_of
get_node_layers-insert fk now hash size ls db =
    let entered = upsert_entry now hash (new_row now [] size true) db in
    let cleared = delete_mappings hash entered in
    elim (add_mappings-Added fk hash 0 ls cleared) [
      | inr (refused, failed) ↦ inl (refused, ap (λ r. commit r db) failed)
      | inl (accepted, (after, done, a)) ↦
          let own : filter (is_of hash) after.node_to_layers ≡ rows_of hash 0 ls =
            ap (filter (is_of hash)) a.mappings
            ∙ filter-append (is_of hash) cleared.node_to_layers (rows_of hash 0 ls)
            ∙ rw
                (
                  filter-deleted hash db.node_to_layers,
                  filter-IsOf hash (rows_of hash 0 ls) (rows_of-IsOf hash 0 ls),
                )
                refl in
          let listed : layers_of hash after.node_to_layers ≡ ls =
            ap (λ ms. map (λ (e : ℕ × Text). e.1) (sort_entries (map slot ms))) own
            ∙ ap (map (λ (e : ℕ × Text). e.1)) (sort_entries-sorted _ (slots_of-IsSorted hash 0 ls))
            ∙ slots_of-layers hash 0 ls in
          let row =
            on_conflict (new_row now [] size true) (touch_row now) (lookup hash db.cache_entries) in
          let there : is_in_table (lookup hash after.cache_entries) ≡ true =
            rw a.entries
              (ground (arith, lookup-insert hash hash row db.cache_entries, text_eq_refl hash)) in
          inr (
            accepted,
            ap (λ r. (commit r db).0) done,
            ap (λ r. get_node_layers hash (commit r db).1) done
                ∙ get_node_layers-listed hash ls after listed there,
          )
    ]
