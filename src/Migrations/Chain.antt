-- ===== src/Migrations/Chain.antt =====
-- The migrations in the order of their time stamps.
use osm_sync_tracker.Prelude.{List, [], ◌∷◌}
use osm_sync_tracker.Migrations.Schema.{Statement, Schema}
use osm_sync_tracker.Migrations.Initial.{
  initial_migration_up, initial_migration_down, add_file_id_constraint_to_entity_up,
  add_file_id_constraint_to_entity_down, add_entity_index_up, add_entity_index_down,
  add_sync_geometry_type_up, add_sync_geometry_type_down,
}
use osm_sync_tracker.Migrations.Rerun.{
  add_sync_rerun_compatibility_up, add_sync_rerun_compatibility_down,
}
use osm_sync_tracker.Migrations.Later.{
  add_on_delete_cascade_to_many_to_one_relations_up,
  add_on_delete_cascade_to_many_to_one_relations_down, add_base_sync_id_to_entity_history_up,
  add_base_sync_id_to_entity_history_down, add_sync_metadata_up, add_sync_metadata_down,
  add_indexing_up, add_indexing_down,
}

pub data Migration : Type 0 where
  initial_migration : Migration
  add_file_id_constraint_to_entity : Migration
  add_entity_index : Migration
  add_sync_geometry_type : Migration
  add_sync_rerun_compatibility : Migration
  add_on_delete_cascade_to_many_to_one_relations : Migration
  add_base_sync_id_to_entity_history : Migration
  add_sync_metadata : Migration
  add_indexing : Migration

unfoldable pub up : Migration → List Statement
up initial_migration = initial_migration_up
up add_file_id_constraint_to_entity = add_file_id_constraint_to_entity_up
up add_entity_index = add_entity_index_up
up add_sync_geometry_type = add_sync_geometry_type_up
up add_sync_rerun_compatibility = add_sync_rerun_compatibility_up
up add_on_delete_cascade_to_many_to_one_relations =
    add_on_delete_cascade_to_many_to_one_relations_up
up add_base_sync_id_to_entity_history = add_base_sync_id_to_entity_history_up
up add_sync_metadata = add_sync_metadata_up
up add_indexing = add_indexing_up

unfoldable pub down : Migration → List Statement
down initial_migration = initial_migration_down
down add_file_id_constraint_to_entity = add_file_id_constraint_to_entity_down
down add_entity_index = add_entity_index_down
down add_sync_geometry_type = add_sync_geometry_type_down
down add_sync_rerun_compatibility = add_sync_rerun_compatibility_down
down add_on_delete_cascade_to_many_to_one_relations =
    add_on_delete_cascade_to_many_to_one_relations_down
down add_base_sync_id_to_entity_history = add_base_sync_id_to_entity_history_down
down add_sync_metadata = add_sync_metadata_down
down add_indexing = add_indexing_down

abbrev pub migrations : List Migration
migrations =
    initial_migration ∷ add_file_id_constraint_to_entity ∷ add_entity_index ∷ add_sync_geometry_type
    ∷ add_sync_rerun_compatibility ∷ add_on_delete_cascade_to_many_to_one_relations
    ∷ add_base_sync_id_to_entity_history ∷ add_sync_metadata ∷ add_indexing ∷ []

abbrev pub empty : Schema
empty = record { types = []; tables = []; columns = []; constraints = []; indexes = [] }
