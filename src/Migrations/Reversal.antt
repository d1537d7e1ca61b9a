-- ===== src/Migrations/Reversal.antt =====
-- Migrations that their `down` takes back, and the one that it does not.
use osm_sync_tracker.Migrations.Later.{
  add_base_sync_id_to_entity_history_up, add_base_sync_id_to_entity_history_down,
  add_sync_metadata_up, add_sync_metadata_down,
}
use osm_sync_tracker.Migrations.Runs.{exec-IsConsistent, exec-undo}
use osm_sync_tracker.Migrations.Initial.{
  initial_migration_up, initial_migration_down, add_entity_index_up, add_entity_index_down,
  add_sync_geometry_type_up, add_sync_geometry_type_down,
}
use osm_sync_tracker.Migrations.Consistent.{IsConsistent}
use osm_sync_tracker.Migrations.Undo.{undo, only_creates}
use osm_sync_tracker.Prelude.{
  Bool, true, false, some, List, [], ◌∷◌, ◌++◌, ◌≡◌, refl, arith, all, Option-cases, inl, inr,
}
use osm_sync_tracker.Migrations.Exec.{run, exec}
use osm_sync_tracker.Migrations.Schema.{Schema, Statement}
use osm_sync_tracker.Migrations.Chain.{
  up, down, initial_migration, add_file_id_constraint_to_entity, add_entity_index,
  add_sync_geometry_type, add_sync_rerun_compatibility,
  add_on_delete_cascade_to_many_to_one_relations, add_base_sync_id_to_entity_history,
  add_sync_metadata, add_indexing, Migration,
}

run-append :
    (xs ys : List Statement) (s s1 : Schema) → run xs s ≡ some s1 → run (xs ++ ys) s ≡ run ys s1
unfolding run
run-append [] ys s s1 e = ground arith
run-append (x ∷ xs) ys s s1 e = elim (Option-cases (exec x s)) [
  | inl refused ↦ ground arith
  | inr (s2, done) ↦ ground (arith, run-append xs ys s2 s1)
]

-- The statements are taken back one by one, the last first.
abbrev undo_all : List Statement → List Statement
undo_all [] = []
undo_all (st ∷ sts) = undo_all sts ++ undo st ∷ []

run-undo_all :
    (sts : List Statement) (s s' : Schema)
    → all only_creates sts ≡ true
    → IsConsistent s
    → run sts s ≡ some s'
    → run (undo_all sts) s' ≡ some s
unfolding run
run-undo_all [] s s' o c e = ground arith
run-undo_all (st ∷ sts) s s' o c e = elim (Option-cases (exec st s)) [
  | inl refused ↦ ground arith
  | inr (s1, done) ↦ ground (
    arith,
    run-undo_all sts s1 s' (ground arith) (exec-IsConsistent st s s1 c done) (ground arith),
    run-append (undo_all sts) (undo st ∷ []) s' s1,
    exec-undo st s s1 (ground arith) c done,
  )
]

-- The migrations whose `up` only creates.
abbrev pub is_taken_back : Migration → Bool
is_taken_back initial_migration = true
is_taken_back add_file_id_constraint_to_entity = false
is_taken_back add_entity_index = true
is_taken_back add_sync_geometry_type = true
is_taken_back add_sync_rerun_compatibility = false
is_taken_back add_on_delete_cascade_to_many_to_one_relations = false
is_taken_back add_base_sync_id_to_entity_history = true
is_taken_back add_sync_metadata = true
is_taken_back add_indexing = false

down-undo_all :
    (m : Migration)
    → is_taken_back m ≡ true
    → (down m ≡ undo_all (up m)) × (all only_creates (up m) ≡ true)
unfolding up down undo only_creates initial_migration_up initial_migration_down add_entity_index_up
    add_entity_index_down add_sync_geometry_type_up add_sync_geometry_type_down
    add_base_sync_id_to_entity_history_up add_base_sync_id_to_entity_history_down
    add_sync_metadata_up add_sync_metadata_down
down-undo_all initial_migration h = (refl, refl)
down-undo_all add_file_id_constraint_to_entity h = cc
down-undo_all add_entity_index h = (refl, refl)
down-undo_all add_sync_geometry_type h = (refl, refl)
down-undo_all add_sync_rerun_compatibility h = cc
down-undo_all add_on_delete_cascade_to_many_to_one_relations h = cc
down-undo_all add_base_sync_id_to_entity_history h = (refl, refl)
down-undo_all add_sync_metadata h = (refl, refl)
down-undo_all add_indexing h = cc

-- Let a migration be one of the five whose up only creates types, tables, columns, foreign keys and
-- indexes: initialMigration, addEntityIndex, addSyncGeometryType, addBaseSyncIdToEntityHistory or
-- AddSyncMetadata. If its up succeeds on a schema in which every part names parts that are there,
-- then its down succeeds after it and gives that very schema back.
pub down-up :
    (m : Migration) (s s' : Schema)
    → is_taken_back m ≡ true
    → IsConsistent s
    → run (up m) s ≡ some s'
    → run (down m) s' ≡ some s
down-up m s s' taken c e =
    rw ((down-undo_all m taken).0) (run-undo_all (up m) s s' (down-undo_all m taken).1 c e)
