-- ===== src/Migrations/Initial.antt =====
-- db/migrations: the first migrations: the tables, the key of an entity, its index and the geometry type.
use osm_sync_tracker.Prelude.{List, [], ◌∷◌, true, false, some, none}
use osm_sync_tracker.Migrations.Schema.{
  Statement, create_type, drop_type, create_table, drop_table, add_column, drop_column,
  add_constraint, drop_constraint, create_index, drop_index, uuid, timestamp, integer, boolean,
  varchar, text, enum, no_action, primary_key, foreign, index, column_def,
}

unfoldable pub initial_migration_up : List Statement
initial_migration_up =
    create_type (record { name = "sync_status_enum"; values = "inprogress" ∷ "completed" ∷ [] })
    ∷ create_table "sync"
        ((column_def "id" uuid true none)
          ∷ (column_def "dump_date" timestamp true none)
          ∷ (column_def "start_date" timestamp true none)
          ∷ (column_def "end_date" timestamp false none)
          ∷ (column_def "status" (enum "sync_status_enum") true (some "inprogress"))
          ∷ (column_def "layer_id" integer true none)
          ∷ (column_def "is_full" boolean true none)
          ∷ (column_def "total_files" integer false none)
          ∷ [])
        "PK_a8e1dd683ac7b9fd6c42fb0ab3d" ("id" ∷ [])
    ∷ create_type (record { name = "file_status_enum"; values = "inprogress" ∷ "completed" ∷ [] })
    ∷ create_table "file"
        ((column_def "file_id" uuid true none)
          ∷ (column_def "sync_id" uuid true none)
          ∷ (column_def "start_date" timestamp true none)
          ∷ (column_def "end_date" timestamp false none)
          ∷ (column_def "status" (enum "file_status_enum") true (some "inprogress"))
          ∷ (column_def "total_entities" integer false none)
          ∷ [])
        "PK_17d33ab8699706c2b9edcd29340" ("file_id" ∷ [])
    ∷ create_type (record {
      name = "entity_status_enum";
      values = "inprogress" ∷ "completed" ∷ "not_synced" ∷ "failed" ∷ [];
    })
    ∷ create_type
        (record { name = "entity_action_enum"; values = "create" ∷ "modify" ∷ "delete" ∷ [] })
    ∷ create_table "entity"
        ((column_def "entity_id" varchar true none)
          ∷ (column_def "file_id" uuid true none)
          ∷ (column_def "changeset_id" uuid false none)
          ∷ (column_def "status" (enum "entity_status_enum") true (some "inprogress"))
          ∷ (column_def "action" (enum "entity_action_enum") false none)
          ∷ (column_def "fail_reason" text false none)
          ∷ [])
        "PK_d3ba6c77bfcc4d2bf9a20d64897" ("entity_id" ∷ [])
    ∷ create_table "changeset"
        ((column_def "changeset_id" uuid true none) ∷ (column_def "osm_id" integer false none) ∷ [])
        "PK_93369eee06978180af05a101c3e" ("changeset_id" ∷ [])
    ∷ add_constraint
        (foreign "file" "FK_1c39660cbdc3080f4aa879b4cf3" "sync_id" "sync" "id" no_action)
    ∷ add_constraint
        (foreign "entity" "FK_a4165c9d0cac4bdf8acd5282661" "file_id" "file" "file_id" no_action)
    ∷ add_constraint (
        foreign "entity" "FK_12f1d58bf4136f5c79f54272b66" "changeset_id" "changeset" "changeset_id"
          no_action)
    ∷ []

unfoldable pub initial_migration_down : List Statement
initial_migration_down =
    drop_constraint "entity" "FK_12f1d58bf4136f5c79f54272b66"
    ∷ drop_constraint "entity" "FK_a4165c9d0cac4bdf8acd5282661"
    ∷ drop_constraint "file" "FK_1c39660cbdc3080f4aa879b4cf3"
    ∷ drop_table "changeset"
    ∷ drop_table "entity"
    ∷ drop_type "entity_action_enum"
    ∷ drop_type "entity_status_enum"
    ∷ drop_table "file"
    ∷ drop_type "file_status_enum"
    ∷ drop_table "sync"
    ∷ drop_type "sync_status_enum"
    ∷ []

unfoldable pub add_file_id_constraint_to_entity_up : List Statement
add_file_id_constraint_to_entity_up =
    drop_constraint "entity" "PK_d3ba6c77bfcc4d2bf9a20d64897"
    ∷ add_constraint (record {
      table = "entity";
      name = "PK_b0d4cdc02ef316d72ae7ecf036a";
      kind = primary_key ("entity_id" ∷ "file_id" ∷ []);
    })
    ∷ []

unfoldable pub add_file_id_constraint_to_entity_down : List Statement
add_file_id_constraint_to_entity_down =
    drop_constraint "entity" "PK_b0d4cdc02ef316d72ae7ecf036a"
    ∷ add_constraint (record {
      table = "entity";
      name = "PK_d3ba6c77bfcc4d2bf9a20d64897";
      kind = primary_key ("entity_id" ∷ []);
    })
    ∷ []

unfoldable pub add_entity_index_up : List Statement
add_entity_index_up =
    create_index false (
      index "entity_file_id_entity_id_idx" "entity" true ("file_id" ∷ "entity_id" ∷ [])
        ("status" ∷ []) none)
    ∷ []

unfoldable pub add_entity_index_down : List Statement
add_entity_index_down = drop_index false "entity_file_id_entity_id_idx" ∷ []

unfoldable pub add_sync_geometry_type_up : List Statement
add_sync_geometry_type_up =
    create_type (record {
      name = "sync_geometry_type_enum";
      values = "point" ∷ "linestring" ∷ "polygon" ∷ [];
    })
    ∷ add_column "sync" (column_def "geometry_type" (enum "sync_geometry_type_enum") true none)
    ∷ []

unfoldable pub add_sync_geometry_type_down : List Statement
add_sync_geometry_type_down =
    drop_column "sync" "geometry_type" ∷ drop_type "sync_geometry_type_enum" ∷ []
