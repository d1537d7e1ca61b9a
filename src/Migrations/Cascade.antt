-- ===== src/Migrations/Cascade.antt =====
-- The index that addOnDeleteCascadeToManyToOneRelations drops.
use osm_sync_tracker.Migrations.Later.{add_on_delete_cascade_to_many_to_one_relations_down}
use osm_sync_tracker.Migrations.Consistent.{same_refl}
use osm_sync_tracker.Prelude.{
  true, false, Option, some, none, List, [], ◌∷◌, ◌++◌, ◌≡◌, arith, find, map, ◌≢◌, Option-cases,
  inl, inr, find-none, find-append-none, String, take, drop,
}
use osm_sync_tracker.Migrations.Exec.{run, exec}
use osm_sync_tracker.Migrations.Schema.{
  Schema, index, create_index, add_constraint, Index, Statement, same, Constraint,
}
use osm_sync_tracker.Migrations.Chain.{down, add_on_delete_cascade_to_many_to_one_relations}

run-indexes :
    (ks : List Constraint) (s s' : Schema)
    → run (map add_constraint ks) s ≡ some s'
    → s'.indexes ≡ s.indexes
unfolding run exec
run-indexes [] s s' e = ground arith
run-indexes (k ∷ ks) s s' e = elim (Option-cases (exec (add_constraint k) s)) [
  | inl refused ↦ ground arith
  | inr (s1, done) ↦ ground (arith, run-indexes ks s1 s')
]

-- The last index that is created is found, if only constraints are added after it.
exec-find :
    (i : Index) (s s' : Schema)
    → exec (create_index false i) s ≡ some s'
    → find (λ x. same x.name i.name) s'.indexes ≡ some i
unfolding exec
exec-find i s s' e = ground (
  arith,
  same_refl i.name,
  find-none (λ x. same x.name i.name) s.indexes,
  find-append-none (λ x. same x.name i.name) s.indexes (i ∷ []),
)

run-find :
    (before : List Statement) (ks : List Constraint) (i : Index) (s s' : Schema)
    → run (before ++ create_index false i ∷ map add_constraint ks) s ≡ some s'
    → find (λ x. same x.name i.name) s'.indexes ≡ some i
unfolding run
run-find [] ks i s s' e = elim (Option-cases (exec (create_index false i) s)) [
  | inl refused ↦ ground arith
  | inr (s1, done) ↦ ground (arith, run-indexes ks s1 s', exec-find i s s1)
]
run-find (st ∷ before) ks i s s' e = elim (Option-cases (exec st s)) [
  | inl refused ↦ ground arith
  | inr (s1, done) ↦ run-find before ks i s1 s' (ground arith)
]

-- The index that addEntityIndex creates.
abbrev pub entity_index : Index
entity_index =
    index "entity_file_id_entity_id_idx" "entity" true ("file_id" ∷ "entity_id" ∷ [])
      ("status" ∷ []) none

-- The index that takes its place.
abbrev pub status_index : Index
status_index =
    index "entity_file_id_entity_id_idx" "entity" true ("entity_id" ∷ "file_id" ∷ "status" ∷ []) []
      none

abbrev constraints_of : List Statement → List Constraint
constraints_of [] = []
constraints_of (add_constraint k ∷ sts) = k ∷ constraints_of sts
constraints_of (_ ∷ sts) = constraints_of sts

abbrev pub index_named : String → Schema → Option Index
index_named n s = find (λ i. same i.name n) s.indexes

-- Let the down of addOnDeleteCascadeToManyToOneRelations succeed. Then the index
-- "entity_file_id_entity_id_idx" is on the entity, the file and the status. So the schema is not one
-- from before in which that index is the one of addEntityIndex, on the file and the entity and with
-- the status included, although the up drops that index.
pub cascade_down_index :
    (before s s' : Schema)
    → index_named "entity_file_id_entity_id_idx" before ≡ some entity_index
    → run (down add_on_delete_cascade_to_many_to_one_relations) s ≡ some s'
    → (index_named "entity_file_id_entity_id_idx" s' ≡ some status_index) × (s' ≢ before)
unfolding down add_on_delete_cascade_to_many_to_one_relations_down
cascade_down_index before s s' there e =
    let sts = down add_on_delete_cascade_to_many_to_one_relations in
    let found = run-find (take 6 sts) (constraints_of (drop 7 sts)) status_index s s' e in
    (found, λ unchanged. ground (arith, found))
