-- ===== src/Migrations/Rerun.antt =====
-- db/migrations: the columns, the table and the statuses that reruns need.
use osm_sync_tracker.Prelude.{List, [], ◌∷◌, true, false, some, none}
use osm_sync_tracker.Migrations.Schema.{
  Statement, create_type, drop_type, rename_type, create_table, drop_table, add_column, drop_column,
  set_type, set_default, add_constraint, drop_constraint, uuid, integer, varchar, text, enum,
  no_action, cascade, foreign, column_def,
}

unfoldable pub add_sync_rerun_compatibility_up : List Statement
add_sync_rerun_compatibility_up =
    create_table "entity_history"
      ((column_def "entity_id" varchar true none)
        ∷ (column_def "file_id" uuid true none)
        ∷ (column_def "sync_id" uuid true none)
        ∷ (column_def "changeset_id" uuid false none)
        ∷ (column_def "status" (enum "entity_status_enum") true none)
        ∷ (column_def "action" (enum "entity_action_enum") false none)
        ∷ (column_def "fail_reason" text false none)
        ∷ [])
      "PK_b6deb3c1e2ca280a4e40c102f77" ("entity_id" ∷ "file_id" ∷ "sync_id" ∷ [])
    ∷ add_column "sync" (column_def "base_sync_id" uuid false none)
    ∷ add_column "sync" (column_def "run_number" integer true (some "0"))
    ∷ rename_type "entity_status_enum" "entity_status_enum_old"
    ∷ create_type (record {
      name = "entity_status_enum";
      values = "inprogress" ∷ "completed" ∷ "not_synced" ∷ "failed" ∷ "inrerun" ∷ [];
    })
    ∷ set_default "entity" "status" none
    ∷ set_type "entity" "status" (enum "entity_status_enum")
    ∷ set_type "entity_history" "status" (enum "entity_status_enum")
    ∷ set_default "entity" "status" (some "inprogress")
    ∷ drop_type "entity_status_enum_old"
    ∷ rename_type "file_status_enum" "file_status_enum_old"
    ∷ create_type
        (record { name = "file_status_enum"; values = "inprogress" ∷ "completed" ∷ "failed" ∷ [] })
    ∷ set_default "file" "status" none
    ∷ set_type "file" "status" (enum "file_status_enum")
    ∷ set_default "file" "status" (some "inprogress")
    ∷ drop_type "file_status_enum_old"
    ∷ rename_type "sync_status_enum" "sync_status_enum_old"
    ∷ create_type
        (record { name = "sync_status_enum"; values = "inprogress" ∷ "completed" ∷ "failed" ∷ [] })
    ∷ set_default "sync" "status" none
    ∷ set_type "sync" "status" (enum "sync_status_enum")
    ∷ set_default "sync" "status" (some "inprogress")
    ∷ drop_type "sync_status_enum_old"
    ∷ add_constraint
        (foreign "sync" "FK_292a83d0034acd2443b6621105e" "base_sync_id" "sync" "id" cascade)
    ∷ add_constraint (
        foreign "entity_history" "FK_7007cc0fa39162086ab809dc7d2" "file_id" "file" "file_id"
          no_action)
    ∷ add_constraint (
        foreign "entity_history" "FK_903243c8e78626eff434dd1c0dd" "changeset_id" "changeset"
          "changeset_id" no_action)
    ∷ []

unfoldable pub add_sync_rerun_compatibility_down : List Statement
add_sync_rerun_compatibility_down =
    drop_constraint "entity_history" "FK_903243c8e78626eff434dd1c0dd"
    ∷ drop_constraint "entity_history" "FK_7007cc0fa39162086ab809dc7d2"
    ∷ drop_constraint "sync" "FK_292a83d0034acd2443b6621105e"
    ∷ create_type
        (record { name = "sync_status_enum_old"; values = "inprogress" ∷ "completed" ∷ [] })
    ∷ set_default "sync" "status" none
    ∷ set_type "sync" "status" (enum "sync_status_enum_old")
    ∷ set_default "sync" "status" (some "inprogress")
    ∷ drop_type "sync_status_enum"
    ∷ rename_type "sync_status_enum_old" "sync_status_enum"
    ∷ create_type
        (record { name = "file_status_enum_old"; values = "inprogress" ∷ "completed" ∷ [] })
    ∷ set_default "file" "status" none
    ∷ set_type "file" "status" (enum "file_status_enum_old")
    ∷ set_default "file" "status" (some "inprogress")
    ∷ drop_type "file_status_enum"
    ∷ rename_type "file_status_enum_old" "file_status_enum"
    ∷ create_type (record {
      name = "entity_status_enum_old";
      values = "inprogress" ∷ "completed" ∷ "not_synced" ∷ "failed" ∷ [];
    })
    ∷ set_default "entity" "status" none
    ∷ set_type "entity_history" "status" (enum "entity_status_enum_old")
    ∷ set_type "entity" "status" (enum "entity_status_enum_old")
    ∷ set_default "entity" "status" (some "inprogress")
    ∷ drop_type "entity_status_enum"
    ∷ rename_type "entity_status_enum_old" "entity_status_enum"
    ∷ drop_column "sync" "run_number"
    ∷ drop_column "sync" "base_sync_id"
    ∷ drop_table "entity_history"
    ∷ []
