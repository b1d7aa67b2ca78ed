-- ===== src/Tests/Databases.antt =====
-- The tables of the PostgreSQL store after some calls.
use memo_build.Prelude.{◌≡◌, refl, some, [], ◌∷◌, List, Text, codes, text_leb, Bool, not}
use memo_build.Cache.Cluster.Ring.{sort_entries, insert_entry}
use memo_build.Server.Metadata.{Db, new_db}
use memo_build.Server.Postgres as Postgres
use memo_build.Server.Postgres.Soundness.{
  Change, insert_layered_node_change, insert_layer_change, cleanup_change, IsSound, run_changes,
  run_changes-IsSound,
}

-- A node with a layer, one that names a layer that is not there, and a clean-up between them.
abbrev changes : List Change
changes =
    insert_layer_change (codes "2024") (codes "one") (codes "/one") 3
    ∷ insert_layered_node_change (codes "2024") (codes "first") 3 (codes "one" ∷ [])
    ∷ cleanup_change (codes "2025")
    ∷ insert_layered_node_change (codes "2025") (codes "second") 3 (codes "two" ∷ [])
    ∷ insert_layered_node_change (codes "2025") (codes "third") 3 (codes "one" ∷ [])
    ∷ []

abbrev earlier : Text → Text → Bool
earlier s t = not (text_leb t s)

abbrev postgres : Db
postgres = run_changes earlier changes new_db

third_layers : Postgres.get_node_layers (codes "third") postgres ≡ some (codes "one" ∷ [])
unfolding Postgres.get_node_layers run_changes Postgres.insert_layer Postgres.insert_layered_node
    Postgres.cleanup_old_entries sort_entries text_leb insert_entry
third_layers = refl

run_changes-IsSound_example : IsSound postgres
run_changes-IsSound_example = run_changes-IsSound earlier changes
