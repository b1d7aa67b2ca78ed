-- ===== src/Server/Postgres/Soundness.antt =====
-- The tables of the PostgreSQL store fit together, whatever calls are made.
use memo_build.Prelude.{
  ℕ, ◌+◌, ◌≡◌, refl, subst, Bool, true, false, not, ◌||◌, List, [], ◌∷◌, ◌++◌, any, inl, inr, arith,
  Bool-cases, filter, Text, lookup, insert, lookup-insert, lookup-remove, text_eq, text_eq_iff,
  text_eq_refl,
}
use memo_build.Prelude.Results.{Result, ok, err}
use memo_build.Server.Metadata
use memo_build.Server.Metadata.{
  CacheRow, LayerRow, Mapping, Db, new_db, is_in_table, upsert_entry, new_row, add_mapping,
  touch_row, on_conflict, add_mappings, delete_mappings, commit, is_of,
}
use memo_build.Server.Metadata.Counting.{insert_layered_node-IsCounted, insert_layer-IsCounted}
use memo_build.Server.Metadata.References.{AllCounted-weaken, IsCounted, uses-filter}
use memo_build.Server.Postgres as Postgres
use memo_build.Server.Postgres.{delete_cascade, delete_rows, old_hashes}

-- A call that changes the tables; every text and time is chosen by the caller.
pub data Change : Type 0 where
  insert_change : (now hash path : Text) (size : ℕ) → Change
  insert_layered_node_change : (now hash : Text) (size : ℕ) (layers : List Text) → Change
  insert_layer_change : (now hash path : Text) (size : ℕ) → Change
  cleanup_change : (cutoff : Text) → Change

-- Each node that a mapping names is an entry.
abbrev HasEntries : Db → Type 0
HasEntries db =
    (h : Text)
    → any (is_of h) db.node_to_layers ≡ true
    → is_in_table (lookup h db.cache_entries) ≡ true

-- The counts of the layers are no lower than their uses, the layers of mappings are there, and so are their nodes.
pub record IsSound (db : Db) : Type 0 where
  pub counted : IsCounted db
  pub entered : HasEntries db

any-append :
    (h : Text) (ms ns : List Mapping)
    → any (is_of h) (ms ++ ns) ≡ (any (is_of h) ms || any (is_of h) ns)
any-append h [] ns = refl
any-append h (m ∷ ms) ns = ground (arith, any-append h ms ns)

any-filter :
    (h k : Text) (ms : List Mapping)
    → any (is_of h) (filter (λ m. not (is_of k m)) ms) ≡ true
    → any (is_of h) ms ≡ true
any-filter h k [] e = e
any-filter h k (m ∷ ms) e = ground (arith, any-filter h k ms)

none-filter :
    (k : Text) (ms : List Mapping) → any (is_of k) (filter (λ m. not (is_of k m)) ms) ≡ false
none-filter k [] = refl
none-filter k (m ∷ ms) = ground (arith, none-filter k ms)

insert-in_table :
    (k h : Text) (row : CacheRow) (rows : List (Text × CacheRow))
    → is_in_table (lookup h rows) ≡ true
    → is_in_table (lookup h (insert k row rows)) ≡ true
insert-in_table k h row rows there = ground (arith, lookup-insert k h row rows, there)

upsert_entry-HasEntries :
    (now hash : Text) (row : CacheRow) (db : Db)
    → HasEntries db
    → HasEntries (upsert_entry now hash row db)
upsert_entry-HasEntries now hash row db e h named =
    insert-in_table hash h _ db.cache_entries (e h named)

add_mappings-HasEntries :
    (hash : Text) (i : ℕ) (ls : List Text) (db after : Db)
    → add_mappings true hash i ls db ≡ ok after
    → is_in_table (lookup hash db.cache_entries) ≡ true
    → HasEntries db
    → HasEntries after
unfolding add_mappings
add_mappings-HasEntries hash i [] db after done there e =
    let same : db ≡ after = cc done in subst HasEntries same e
add_mappings-HasEntries hash i (l ∷ ls) db after done there e =
    let m : Mapping = record { node_hash = hash; layer_hash = l; position = i } in
    elim (Bool-cases (is_in_table (lookup l db.cache_layers))) [
      | inl has ↦
          add_mappings-HasEntries hash (i + 1) ls (add_mapping hash i l db) after (rw has at done)
            there
            (λ h named. elim (Bool-cases (text_eq hash h)) [
              | inl same ↦
                  subst (λ k. is_in_table (lookup k db.cache_entries) ≡ true)
                    ((text_eq_iff hash h).0 same) there
              | inr other ↦
                  e h (ground (arith, any-append h db.node_to_layers (m ∷ []), named, other))
            ])
      | inr absent ↦ let failed = rw absent at done in cc failed
    ]

commit-HasEntries :
    (r : Result Db) (db : Db)
    → HasEntries db
    → ((after : Db) → r ≡ ok after → HasEntries after)
    → HasEntries (commit r db).1
commit-HasEntries (ok after) db e done = done after refl
commit-HasEntries (err x) db e done = e

insert_layered_node-HasEntries :
    (now hash : Text) (size : ℕ) (ls : List Text) (db : Db)
    → HasEntries db
    → HasEntries (Postgres.insert_layered_node now hash size ls db).1
unfolding Postgres.insert_layered_node
insert_layered_node-HasEntries now hash size ls db e =
    let row = new_row now [] size true in
    let start = delete_mappings hash (upsert_entry now hash row db) in
    let written = on_conflict row (touch_row now) (lookup hash db.cache_entries) in
    let there : is_in_table (lookup hash start.cache_entries) ≡ true =
      ground (arith, lookup-insert hash hash written db.cache_entries, text_eq_refl hash) in
    commit-HasEntries (add_mappings true hash 0 ls start) db e (λ after done.
      add_mappings-HasEntries hash 0 ls start after done there (λ h named.
        upsert_entry-HasEntries now hash row db e h (any-filter h hash db.node_to_layers named)))

delete_cascade-IsSound : (hash : Text) (db : Db) → IsSound db → IsSound (delete_cascade hash db)
delete_cascade-IsSound hash db s = record {
  counted = record {
    counted =
        AllCounted-weaken db.node_to_layers (delete_cascade hash db).node_to_layers db.cache_layers
          (λ l. omega (arith, uses-filter hash l db.node_to_layers)) s.counted.counted;
    present = λ l h. s.counted.present l (omega (arith, uses-filter hash l db.node_to_layers));
  };
  entered = λ h named. elim (Bool-cases (text_eq hash h)) [
    | inl same ↦
        let eq : hash ≡ h = (text_eq_iff hash h).0 same in
        let gone =
          subst (λ k. any (is_of k) (filter (λ m. not (is_of hash m)) db.node_to_layers) ≡ false) eq
            (none-filter hash db.node_to_layers) in
        absurd (cc (gone, named))
    | inr other ↦
        let kept = s.entered h (any-filter h hash db.node_to_layers named) in
        ground (arith, lookup-remove hash h db.cache_entries, other, kept)
  ];
}

delete_rows-IsSound : (hashes : List Text) (db : Db) → IsSound db → IsSound (delete_rows hashes db)
unfolding delete_rows
delete_rows-IsSound [] db s = s
delete_rows-IsSound (hash ∷ hashes) db s =
    delete_rows-IsSound hashes (delete_cascade hash db) (delete_cascade-IsSound hash db s)

module _ (earlier : Text → Text → Bool) where
  unfoldable pub change : Change → Db → Db
  change (insert_change now hash path size) db = Postgres.insert_artifact now hash path size db
  change (insert_layered_node_change now hash size layers) db =
      (Postgres.insert_layered_node now hash size layers db).1
  change (insert_layer_change now hash path size) db = Postgres.insert_layer now hash path size db
  change (cleanup_change cutoff) db = (Postgres.cleanup_old_entries earlier cutoff db).1

  unfoldable pub run_changes : List Change → Db → Db
  unfolding change
  run_changes [] db = db
  run_changes (c ∷ cs) db = run_changes cs (change c db)

  change-IsSound : (c : Change) (db : Db) → IsSound db → IsSound (change c db)
  unfolding change Postgres.insert_artifact Postgres.insert_layered_node
      Metadata.insert_layered_node Postgres.insert_layer Metadata.insert_layer
      Postgres.cleanup_old_entries
  change-IsSound (insert_change now hash path size) db s = record {
    counted = record { counted = s.counted.counted; present = s.counted.present };
    entered = upsert_entry-HasEntries now hash (new_row now path size false) db s.entered;
  }
  change-IsSound (insert_layered_node_change now hash size ls) db s = record {
    counted = insert_layered_node-IsCounted now hash size ls db s.counted;
    entered = insert_layered_node-HasEntries now hash size ls db s.entered;
  }
  change-IsSound (insert_layer_change now hash path size) db s = record {
    counted = insert_layer-IsCounted now hash path size db s.counted;
    entered = s.entered;
  }
  change-IsSound (cleanup_change cutoff) db s =
      delete_rows-IsSound (old_hashes earlier cutoff db) db s

  kept-IsSound : (cs : List Change) (db : Db) → IsSound db → IsSound (run_changes cs db)
  unfolding run_changes
  kept-IsSound [] db s = s
  kept-IsSound (c ∷ cs) db s = kept-IsSound cs (change c db) (change-IsSound c db s)

  -- After any insertions and clean-ups of new tables, whether they succeed or not and whatever the order of
  -- times: each mapping names a node that has an entry and a layer that is there, and the count of a
  -- layer is no lower than the number of mappings that name it.
  pub run_changes-IsSound : (cs : List Change) → IsSound (run_changes cs new_db)
  run_changes-IsSound cs = kept-IsSound cs new_db (record {
    counted = record { counted = tt; present = λ l h. absurd (omega arith) };
    entered = λ h named. absurd (cc named);
  })
