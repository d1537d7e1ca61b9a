-- ===== src/Tests/Migrations.antt =====
-- The migrations on the empty schema.
use osm_sync_tracker.Migrations.Reversal.{down-up}
use osm_sync_tracker.Migrations.Cascade.{
  index_named, status_index, entity_index, cascade_down_index,
}
use osm_sync_tracker.Migrations.Consistent.{IsConsistent}
use osm_sync_tracker.Prelude.{
  List, [], ◌∷◌, ◌≡◌, refl, get_or, flat_map, take, ℕ, String, some, ◌≢◌,
}
use osm_sync_tracker.Migrations.Exec.{run, exec}
use osm_sync_tracker.Migrations.Schema.{Schema, primary_key, ConstraintKind}
use osm_sync_tracker.Migrations.Initial.{
  initial_migration_up, add_file_id_constraint_to_entity_up, add_entity_index_up,
  add_sync_geometry_type_up,
}
use osm_sync_tracker.Migrations.Rerun.{add_sync_rerun_compatibility_up}
use osm_sync_tracker.Migrations.Later.{
  add_on_delete_cascade_to_many_to_one_relations_up,
  add_on_delete_cascade_to_many_to_one_relations_down, add_base_sync_id_to_entity_history_up,
  add_sync_metadata_up, add_indexing_up,
}
use osm_sync_tracker.Migrations.Chain.{
  up, migrations, empty, down, add_on_delete_cascade_to_many_to_one_relations, initial_migration,
}

-- The schema after a number of migrations.
abbrev after : ℕ → Schema
unfolding run exec up down initial_migration_up add_file_id_constraint_to_entity_up
    add_entity_index_up add_sync_geometry_type_up add_sync_rerun_compatibility_up
    add_on_delete_cascade_to_many_to_one_relations_up add_base_sync_id_to_entity_history_up
    add_sync_metadata_up add_indexing_up add_on_delete_cascade_to_many_to_one_relations_down
after n = get_or (run (flat_map up (take n migrations)) empty) empty

abbrev primary_keys : Schema → List (String × List String)
primary_keys s = flat_map (λ k. keys k.table k.kind) s.constraints
  where
    keys : String → ConstraintKind → List (String × List String)
    keys t (primary_key ns) = (t, ns) ∷ []
    keys t _ = []

-- All the migrations succeed, and leave the keys by which the tables of the model tell rows apart.
all_primary_keys :
    primary_keys (after 9)
    ≡ ("sync", "id" ∷ [])
      ∷ ("file", "file_id" ∷ [])
      ∷ ("changeset", "changeset_id" ∷ [])
      ∷ ("entity", "entity_id" ∷ "file_id" ∷ [])
      ∷ ("entity_history", "entity_id" ∷ "file_id" ∷ "sync_id" ∷ [])
      ∷ []
unfolding run exec up down initial_migration_up add_file_id_constraint_to_entity_up
    add_entity_index_up add_sync_geometry_type_up add_sync_rerun_compatibility_up
    add_on_delete_cascade_to_many_to_one_relations_up add_base_sync_id_to_entity_history_up
    add_sync_metadata_up add_indexing_up add_on_delete_cascade_to_many_to_one_relations_down
all_primary_keys = refl

empty-IsConsistent : IsConsistent empty
empty-IsConsistent = record { columns = refl; constraints = refl; indexes = refl }

after-1 : run (up initial_migration) empty ≡ some (after 1)
unfolding run exec up down initial_migration_up add_file_id_constraint_to_entity_up
    add_entity_index_up add_sync_geometry_type_up add_sync_rerun_compatibility_up
    add_on_delete_cascade_to_many_to_one_relations_up add_base_sync_id_to_entity_history_up
    add_sync_metadata_up add_indexing_up add_on_delete_cascade_to_many_to_one_relations_down
after-1 = refl

down-up_example : run (down initial_migration) (after 1) ≡ some empty
down-up_example = down-up initial_migration empty (after 1) refl empty-IsConsistent after-1

-- The schema after the down that takes the sixth migration back.
abbrev taken_back : Schema
unfolding run exec up down initial_migration_up add_file_id_constraint_to_entity_up
    add_entity_index_up add_sync_geometry_type_up add_sync_rerun_compatibility_up
    add_on_delete_cascade_to_many_to_one_relations_up add_base_sync_id_to_entity_history_up
    add_sync_metadata_up add_indexing_up add_on_delete_cascade_to_many_to_one_relations_down
taken_back = get_or (run (down add_on_delete_cascade_to_many_to_one_relations) (after 6)) empty

down-6 : run (down add_on_delete_cascade_to_many_to_one_relations) (after 6) ≡ some taken_back
unfolding run exec up down initial_migration_up add_file_id_constraint_to_entity_up
    add_entity_index_up add_sync_geometry_type_up add_sync_rerun_compatibility_up
    add_on_delete_cascade_to_many_to_one_relations_up add_base_sync_id_to_entity_history_up
    add_sync_metadata_up add_indexing_up add_on_delete_cascade_to_many_to_one_relations_down
down-6 = refl

index-5 : index_named "entity_file_id_entity_id_idx" (after 5) ≡ some entity_index
unfolding run exec up down initial_migration_up add_file_id_constraint_to_entity_up
    add_entity_index_up add_sync_geometry_type_up add_sync_rerun_compatibility_up
    add_on_delete_cascade_to_many_to_one_relations_up add_base_sync_id_to_entity_history_up
    add_sync_metadata_up add_indexing_up add_on_delete_cascade_to_many_to_one_relations_down
index-5 = refl

cascade_down_index_example :
    (index_named "entity_file_id_entity_id_idx" taken_back ≡ some status_index)
    × (taken_back ≢ after 5)
cascade_down_index_example = cascade_down_index (after 5) (after 6) taken_back index-5 down-6
