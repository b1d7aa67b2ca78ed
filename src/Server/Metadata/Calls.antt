-- ===== src/Server/Metadata/Calls.antt =====
-- Sequences of calls of the store, and what holds after all of them.
use memo_build.Prelude.{
  ℕ, ◌≡◌, Bool, true, false, not, List, [], ◌∷◌, map, inl, inr, arith, Bool-cases, filter, Text,
}
use memo_build.Prelude.Int.{ℤ, pos, negsuc, is_above, AtLeast}
use memo_build.Server.Metadata.{
  LayerRow, Mapping, Db, new_db, insert_artifact, insert_layered_node, insert_layer, touch, delete,
  is_unused, get_unused_layers, is_referenced, delete_layer_metadata, record_build, get_old_entries,
  cleanup_old_entries,
}
use memo_build.Server.Metadata.Counting.{
  insert_layered_node-IsCounted, insert_layer-IsCounted, touch-IsCounted, delete_all-IsCounted,
  delete_layer_metadata-IsCounted, delete-IsCounted,
}
use memo_build.Server.Metadata.References.{uses, AllCounted, IsCounted, is_referenced-uses}

-- A call that changes the database; every text and time is chosen by the caller.
pub data Call : Type 0 where
  insert_call : (now hash path : Text) (size : ℕ) → Call
  insert_layered_node_call : (now hash : Text) (size : ℕ) (layers : List Text) → Call
  insert_layer_call : (now hash path : Text) (size : ℕ) → Call
  touch_call : (now hash : Text) → Call
  delete_call : (hash : Text) → Call
  delete_layer_metadata_call : (hash : Text) → Call
  record_build_call : (now : Text) (dirty cached duration_ms : ℕ) → Call
  cleanup_call : (cutoff : Text) → Call

unfoldable pub apply : Bool → Call → Db → Db
apply fk (insert_call now hash path size) db = insert_artifact now hash path size db
apply fk (insert_layered_node_call now hash size layers) db =
    (insert_layered_node fk now hash size layers db).1
apply fk (insert_layer_call now hash path size) db = insert_layer now hash path size db
apply fk (touch_call now hash) db = touch now hash db
apply fk (delete_call hash) db = delete hash db
apply fk (delete_layer_metadata_call hash) db = (delete_layer_metadata fk hash db).1
apply fk (record_build_call now dirty cached duration_ms) db =
    record_build now dirty cached duration_ms db
apply fk (cleanup_call cutoff) db = (cleanup_old_entries cutoff db).1

unfoldable pub run_calls : Bool → List Call → Db → Db
unfolding apply
run_calls fk [] db = db
run_calls fk (c ∷ cs) db = run_calls fk cs (apply fk c db)

apply-IsCounted : (call : Call) (db : Db) → IsCounted db → IsCounted (apply true call db)
unfolding apply insert_artifact record_build cleanup_old_entries
apply-IsCounted (insert_call now hash path size) db c = record {
  counted = c.counted;
  present = c.present;
}
apply-IsCounted (insert_layered_node_call now hash size layers) db c =
    insert_layered_node-IsCounted now hash size layers db c
apply-IsCounted (insert_layer_call now hash path size) db c =
    insert_layer-IsCounted now hash path size db c
apply-IsCounted (touch_call now hash) db c = touch-IsCounted now hash db c
apply-IsCounted (delete_call hash) db c = delete-IsCounted hash db c
apply-IsCounted (delete_layer_metadata_call hash) db c = delete_layer_metadata-IsCounted hash db c
apply-IsCounted (record_build_call now dirty cached duration_ms) db c = record {
  counted = c.counted;
  present = c.present;
}
apply-IsCounted (cleanup_call cutoff) db c = delete_all-IsCounted (get_old_entries cutoff db) db c

run_calls-IsCounted :
    (calls : List Call) (db : Db) → IsCounted db → IsCounted (run_calls true calls db)
unfolding run_calls
run_calls-IsCounted [] db c = c
run_calls-IsCounted (call ∷ calls) db c =
    run_calls-IsCounted calls (apply true call db) (apply-IsCounted call db c)

new_db-IsCounted : IsCounted new_db
new_db-IsCounted = record { counted = tt; present = λ l h. absurd (omega arith) }

-- No node lists any of these layers.
abbrev pub AllUnreferenced : List Mapping → List (Text × Text) → Type 0
AllUnreferenced ms [] = Unit
AllUnreferenced ms ((hash, path) ∷ layers) =
    (is_referenced ms hash ≡ false) × AllUnreferenced ms layers

no_uses : (n : ℕ) (z : ℤ) → not (is_above 0 z) ≡ true → AtLeast n z → n ≡ 0
no_uses n (pos m) a b = ground arith
no_uses n (negsuc m) a b = absurd b

unused-AllUnreferenced :
    (ms : List Mapping) (rows : List (Text × LayerRow))
    → AllCounted ms rows
    → AllUnreferenced ms
        (map (λ (e : Text × LayerRow). (e.0, e.1.storage_path)) (filter is_unused rows))
unused-AllUnreferenced ms [] all = tt
unused-AllUnreferenced ms ((h, row) ∷ rows) all = elim (Bool-cases (is_unused (h, row))) [
  | inl unused ↦ rw unused (
    is_referenced-uses h ms (no_uses (uses h ms) row.ref_count unused all.0),
    unused-AllUnreferenced ms rows all.1,
  )
  | inr used ↦ rw used (unused-AllUnreferenced ms rows all.1)
]

-- Where foreign keys are enforced, whatever calls were made on a new database, the garbage collection
-- is never offered a layer that a node still lists.
pub get_unused_layers-AllUnreferenced :
    (calls : List Call)
    → AllUnreferenced
        (run_calls true calls new_db).node_to_layers
        (get_unused_layers (run_calls true calls new_db))
unfolding get_unused_layers
get_unused_layers-AllUnreferenced calls =
    let c = run_calls-IsCounted calls new_db new_db-IsCounted in
    unused-AllUnreferenced (run_calls true calls new_db).node_to_layers
      (run_calls true calls new_db).cache_layers c.counted
