-- ===== src/Server/Metadata/Counting.antt =====
-- The statements of src/server/metadata.rs keep the counts of the layers' uses.
use memo_build.Prelude.{
  ℕ, ◌+◌, ◌<◌, ◌≡◌, refl, ◌∙◌, subst, true, Option, none, some, List, [], ◌∷◌, inl, inr, arith,
  Bool-cases, Option-cases, Text, text_eq_iff, lookup, insert, lookup-insert, lookup-remove,
}
use memo_build.Prelude.Results.{Result, ok, err}
use memo_build.Server.Metadata.{
  CacheRow, touch_found, LayerRow, Mapping, Db, upsert_entry, is_in_table, add_mapping,
  add_mappings, delete_mappings, commit, new_row, insert_layered_node, new_layer, use_layer,
  insert_layer, touch, delete, delete_all, is_referenced, delete_layer_metadata,
}
use memo_build.Server.Metadata.References.{
  uses, IsCounted, uses-append, uses-filter, uses-is_referenced, AllCounted-weaken,
  inc_where-AllCounted, dec_listed-AllCounted, AllCounted-lookup, insert-AllCounted,
  remove-AllCounted, in_table-inc_where, in_table-dec_listed,
}

add_mapping-IsCounted :
    (hash l : Text) (i : ℕ) (db : Db)
    → is_in_table (lookup l db.cache_layers) ≡ true
    → IsCounted db
    → IsCounted (add_mapping hash i l db)
add_mapping-IsCounted hash l i db there c =
    let m : Mapping = record { node_hash = hash; layer_hash = l; position = i } in
    record {
      counted = inc_where-AllCounted m db.node_to_layers db.cache_layers c.counted;
      present = λ k h. ground (
        arith,
        in_table-inc_where l k db.cache_layers,
        uses-append k db.node_to_layers (m ∷ []),
        c.present k,
        there,
        text_eq_iff l k,
      );
    }

add_mappings-IsCounted :
    (hash : Text) (i : ℕ) (ls : List Text) (db after : Db)
    → add_mappings true hash i ls db ≡ ok after
    → IsCounted db
    → IsCounted after
unfolding add_mappings
add_mappings-IsCounted hash i [] db after e c =
    let same : db ≡ after = cc e in subst IsCounted same c
add_mappings-IsCounted hash i (l ∷ ls) db after e c =
    elim (Bool-cases (is_in_table (lookup l db.cache_layers))) [
      | inl there ↦
          add_mappings-IsCounted hash (i + 1) ls (add_mapping hash i l db) after (rw there at e)
            (add_mapping-IsCounted hash l i db there c)
      | inr absent ↦ let failed = rw absent at e in cc failed
    ]

delete_mappings-IsCounted :
    (hash : Text) (db : Db) → IsCounted db → IsCounted (delete_mappings hash db)
delete_mappings-IsCounted hash db c = record {
  counted =
      AllCounted-weaken db.node_to_layers (delete_mappings hash db).node_to_layers db.cache_layers
        (λ l. omega (arith, uses-filter hash l db.node_to_layers)) c.counted;
  present = λ l h. c.present l (omega (arith, uses-filter hash l db.node_to_layers));
}

commit-IsCounted :
    (r : Result Db) (db : Db)
    → IsCounted db
    → ((after : Db) → r ≡ ok after → IsCounted after)
    → IsCounted (commit r db).1
commit-IsCounted (ok after) db c done = done after refl
commit-IsCounted (err e) db c done = c

pub insert_layered_node-IsCounted :
    (now hash : Text) (size : ℕ) (ls : List Text) (db : Db)
    → IsCounted db
    → IsCounted (insert_layered_node true now hash size ls db).1
unfolding insert_layered_node
insert_layered_node-IsCounted now hash size ls db c =
    let entered = upsert_entry now hash (new_row now [] size true) db in
    let kept : IsCounted entered = record { counted = c.counted; present = c.present } in
    commit-IsCounted (add_mappings true hash 0 ls (delete_mappings hash entered)) db c (λ after e.
      add_mappings-IsCounted hash 0 ls (delete_mappings hash entered) after e
        (delete_mappings-IsCounted hash entered kept))

pub insert_layer-IsCounted :
    (now hash path : Text) (size : ℕ) (db : Db)
    → IsCounted db
    → IsCounted (insert_layer now hash path size db)
unfolding insert_layer
insert_layer-IsCounted now hash path size db c =
    let present : (row : LayerRow) (l : Text)
        → 0 < uses l db.node_to_layers
        → is_in_table (lookup l (insert hash row db.cache_layers)) ≡ true =
      λ row l h. ground (arith, lookup-insert hash l row db.cache_layers, c.present l h) in
    elim (Option-cases (lookup hash db.cache_layers)) [
      | inl absent ↦
          let unused : uses hash db.node_to_layers ≡ 0 = ground (arith, c.present hash, absent) in
          rw absent (record {
            counted =
                insert-AllCounted db.node_to_layers db.cache_layers hash (new_layer now path size)
                  c.counted (omega (arith, unused));
            present = present (new_layer now path size);
          })
      | inr (row, found) ↦ rw found (record {
        counted =
            insert-AllCounted db.node_to_layers db.cache_layers hash (use_layer now row) c.counted
              (AllCounted-lookup db.node_to_layers db.cache_layers hash row c.counted found);
        present = present (use_layer now row);
      })
    ]

touch_found-IsCounted :
    (now hash : Text) (o : Option CacheRow) (db : Db)
    → IsCounted db
    → IsCounted (touch_found now hash o db)
touch_found-IsCounted now hash none db c = c
touch_found-IsCounted now hash (some row) db c = record { counted = c.counted; present = c.present }

pub touch-IsCounted : (now hash : Text) (db : Db) → IsCounted db → IsCounted (touch now hash db)
unfolding touch
touch-IsCounted now hash db c = touch_found-IsCounted now hash (lookup hash db.cache_entries) db c

pub delete-IsCounted : (hash : Text) (db : Db) → IsCounted db → IsCounted (delete hash db)
unfolding delete
delete-IsCounted hash db c =
    let fewer = λ (l : Text). uses-filter hash l db.node_to_layers in
    record {
      counted = dec_listed-AllCounted hash db.node_to_layers _ db.cache_layers fewer c.counted;
      present = λ l h.
          in_table-dec_listed hash l db.node_to_layers db.cache_layers
          ∙ c.present l (omega (arith, fewer l));
    }

pub delete_all-IsCounted :
    (hashes : List Text) (db : Db) → IsCounted db → IsCounted (delete_all hashes db)
unfolding delete_all
delete_all-IsCounted [] db c = c
delete_all-IsCounted (hash ∷ hashes) db c =
    delete_all-IsCounted hashes (delete hash db) (delete-IsCounted hash db c)

pub delete_layer_metadata-IsCounted :
    (hash : Text) (db : Db) → IsCounted db → IsCounted (delete_layer_metadata true hash db).1
unfolding delete_layer_metadata
delete_layer_metadata-IsCounted hash db c =
    elim (Bool-cases (is_referenced db.node_to_layers hash)) [
      | inl referenced ↦ rw referenced c
      | inr unreferenced ↦ rw unreferenced (record {
        counted = remove-AllCounted db.node_to_layers db.cache_layers hash c.counted;
        present = λ l h. ground (
          arith,
          lookup-remove hash l db.cache_layers,
          c.present l h,
          uses-is_referenced hash db.node_to_layers,
          text_eq_iff hash l,
        );
      })
    ]
