-- ===== src/Migrations/Later.antt =====
-- db/migrations: the deletions that cascade, the base sync of a history row, the metadata and the indexes.
use osm_sync_tracker.Prelude.{List, [], ◌∷◌, true, false, some, none}
use osm_sync_tracker.Migrations.Schema.{
  Statement, add_column, drop_column, add_constraint, drop_constraint, create_index, drop_index,
  uuid, jsonb, no_action, cascade, foreign, index, column_def,
}

unfoldable pub add_on_delete_cascade_to_many_to_one_relations_up : List Statement
add_on_delete_cascade_to_many_to_one_relations_up =
    drop_constraint "entity" "FK_a4165c9d0cac4bdf8acd5282661"
    ∷ drop_constraint "entity" "FK_12f1d58bf4136f5c79f54272b66"
    ∷ drop_constraint "file" "FK_1c39660cbdc3080f4aa879b4cf3"
    ∷ drop_constraint "sync" "FK_292a83d0034acd2443b6621105e"
    ∷ drop_constraint "entity_history" "FK_7007cc0fa39162086ab809dc7d2"
    ∷ drop_constraint "entity_history" "FK_903243c8e78626eff434dd1c0dd"
    ∷ drop_index false "entity_file_id_entity_id_idx"
    ∷ add_constraint
        (foreign "entity" "FK_2d7ba486d8557ffd4255a2d6079" "file_id" "file" "file_id" cascade)
    ∷ add_constraint (
        foreign "entity" "FK_70a6f46890b72752922665b70a6" "changeset_id" "changeset" "changeset_id"
          cascade)
    ∷ add_constraint (foreign "file" "FK_dd9a1a2f4793462dec25c0bfd1e" "sync_id" "sync" "id" cascade)
    ∷ add_constraint
        (foreign "sync" "FK_9bba1992a2c7993b5d2a13e2c81" "base_sync_id" "sync" "id" cascade)
    ∷ add_constraint (
        foreign "entity_history" "FK_9e2bef2400a2f604c496dfdb924" "file_id" "file" "file_id"
          cascade)
    ∷ add_constraint (
        foreign "entity_history" "FK_790b0f11fdd7d1ee0fe13a017e7" "changeset_id" "changeset"
          "changeset_id" cascade)
    ∷ []

unfoldable pub add_on_delete_cascade_to_many_to_one_relations_down : List Statement
add_on_delete_cascade_to_many_to_one_relations_down =
    drop_constraint "entity_history" "FK_790b0f11fdd7d1ee0fe13a017e7"
    ∷ drop_constraint "entity_history" "FK_9e2bef2400a2f604c496dfdb924"
    ∷ drop_constraint "sync" "FK_9bba1992a2c7993b5d2a13e2c81"
    ∷ drop_constraint "file" "FK_dd9a1a2f4793462dec25c0bfd1e"
    ∷ drop_constraint "entity" "FK_70a6f46890b72752922665b70a6"
    ∷ drop_constraint "entity" "FK_2d7ba486d8557ffd4255a2d6079"
    ∷ create_index false (
        index "entity_file_id_entity_id_idx" "entity" true ("entity_id" ∷ "file_id" ∷ "status" ∷ [])
          [] none)
    ∷ add_constraint (
        foreign "entity_history" "FK_903243c8e78626eff434dd1c0dd" "changeset_id" "changeset"
          "changeset_id" no_action)
    ∷ add_constraint (
        foreign "entity_history" "FK_7007cc0fa39162086ab809dc7d2" "file_id" "file" "file_id"
          no_action)
    ∷ add_constraint
        (foreign "sync" "FK_292a83d0034acd2443b6621105e" "base_sync_id" "sync" "id" cascade)
    ∷ add_constraint
        (foreign "file" "FK_1c39660cbdc3080f4aa879b4cf3" "sync_id" "sync" "id" no_action)
    ∷ add_constraint (
        foreign "entity" "FK_12f1d58bf4136f5c79f54272b66" "changeset_id" "changeset" "changeset_id"
          no_action)
    ∷ add_constraint
        (foreign "entity" "FK_a4165c9d0cac4bdf8acd5282661" "file_id" "file" "file_id" no_action)
    ∷ []

unfoldable pub add_base_sync_id_to_entity_history_up : List Statement
add_base_sync_id_to_entity_history_up =
    add_column "entity_history" (column_def "base_sync_id" uuid false none)
    ∷ add_constraint
        (foreign "entity_history" "FK_fdea55efea678dfb91caecc1dcb" "sync_id" "sync" "id" cascade)
    ∷ add_constraint (
        foreign "entity_history" "FK_9be25a56ae82b667f551d117014" "base_sync_id" "sync" "id"
          cascade)
    ∷ []

unfoldable pub add_base_sync_id_to_entity_history_down : List Statement
add_base_sync_id_to_entity_history_down =
    drop_constraint "entity_history" "FK_9be25a56ae82b667f551d117014"
    ∷ drop_constraint "entity_history" "FK_fdea55efea678dfb91caecc1dcb"
    ∷ drop_column "entity_history" "base_sync_id"
    ∷ []

unfoldable pub add_sync_metadata_up : List Statement
add_sync_metadata_up = add_column "sync" (column_def "metadata" jsonb false none) ∷ []

unfoldable pub add_sync_metadata_down : List Statement
add_sync_metadata_down = drop_column "sync" "metadata" ∷ []

unfoldable pub add_indexing_up : List Statement
add_indexing_up =
    create_index true (
      index "idx_entity_file_closed" "entity" false ("file_id" ∷ []) []
        (some "status IN ('completed', 'not_synced')"))
    ∷ create_index true
        (index "idx_entity_file_status" "entity" false ("file_id" ∷ "status" ∷ []) [] none)
    ∷ create_index true
        (index "idx_entity_changeset_file" "entity" false ("changeset_id" ∷ "file_id" ∷ []) [] none)
    ∷ create_index true (
        index "idx_file_sync_completed" "file" false ("sync_id" ∷ []) []
          (some "status = 'completed'"))
    ∷ create_index true
        (index "idx_file_sync_status" "file" false ("sync_id" ∷ "status" ∷ []) [] none)
    ∷ create_index true (index "idx_file_status" "file" false ("status" ∷ []) [] none)
    ∷ create_index true
        (index "idx_sync_base_status" "sync" false ("base_sync_id" ∷ "status" ∷ []) [] none)
    ∷ []

unfoldable pub add_indexing_down : List Statement
add_indexing_down =
    drop_index true "idx_sync_base_status"
    ∷ drop_index true "idx_file_status"
    ∷ drop_index true "idx_file_sync_status"
    ∷ drop_index true "idx_file_sync_completed"
    ∷ drop_index true "idx_entity_changeset_file"
    ∷ drop_index true "idx_entity_file_status"
    ∷ drop_index true "idx_entity_file_closed"
    ∷ []
