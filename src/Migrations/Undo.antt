-- ===== src/Migrations/Undo.antt =====
-- The statement that takes a statement back, for the statements that only create.
use osm_sync_tracker.Migrations.Exec.{exec}
use osm_sync_tracker.Migrations.Consistent.{same_eq, IsConsistent, same_refl}
use osm_sync_tracker.Prelude.{
  Bool, true, false, not, List, ◌≡◌, refl, arith, any, all, any-none, String, map, ◌++◌, ◌∷◌, [],
  some, any-append, filter-append_new, ◌&&◌, any_weaken, filter-all, all_mono,
}
use osm_sync_tracker.Migrations.Schema.{
  Schema, create_type, create_table, add_column, add_constraint, create_index, drop_type,
  drop_table, drop_column, drop_constraint, drop_index, uuid, timestamp, integer, boolean, varchar,
  text, jsonb, enum, primary_key, foreign_key, DataType, Statement, ConstraintKind, has_table,
  has_column, has_target, is_primary, has_type, same, is_typed, targets_table, targets_column,
  is_of_type, ColumnDef, Index, table_column, EnumType, Constraint, has_index, has_constraint,
  is_column, is_constraint, column_refers, constraint_refers, is_key_on, index_refers, key_columns,
  is_index_on,
}

unfoldable pub undo : Statement → Statement
undo (create_type t) = drop_type t.name
undo (create_table t defs pk keys) = drop_table t
undo (add_column t d) = drop_column t d.name
undo (add_constraint k) = drop_constraint k.table k.name
undo (create_index lenient i) = drop_index lenient i.name
undo st = st

-- An index that is created only if it is missing may have been there before.
unfoldable pub only_creates : Statement → Bool
only_creates (create_type t) = true
only_creates (create_table t defs pk keys) = true
only_creates (add_column t d) = true
only_creates (add_constraint k) = not (is_primary k.kind)
only_creates (create_index lenient i) = not lenient
only_creates st = false

module _ (s : Schema) where
  any_same :
      (t : String) (x : String) → has_table s x ≡ true → has_table s t ≡ false → same x t ≡ false
  any_same t x h k = ground (arith, same_eq x t)

  of_missing_type :
      (n : String) (t : DataType)
      → has_type s n ≡ false
      → is_typed s t ≡ true
      → is_of_type n t ≡ false
  of_missing_type n (enum m) h k = ground (arith, same_eq m n)
  of_missing_type n uuid h k = refl
  of_missing_type n timestamp h k = refl
  of_missing_type n integer h k = refl
  of_missing_type n boolean h k = refl
  of_missing_type n varchar h k = refl
  of_missing_type n text h k = refl
  of_missing_type n jsonb h k = refl

  missing_target :
      (t : String) (k : ConstraintKind)
      → has_table s t ≡ false
      → has_target s k ≡ true
      → targets_table t k ≡ false
  missing_target t (primary_key ns) h e = refl
  missing_target t (foreign_key m u n d) h e = ground (arith, any_same t u)

  missing_column :
      (t n : String) (k : ConstraintKind)
      → has_column s t n ≡ false
      → has_target s k ≡ true
      → targets_column t n k ≡ false
  missing_column t n (primary_key ns) h e = refl
  missing_column t n (foreign_key m u v d) h e = ground (arith, same_eq u t, same_eq v n)

  missing_key :
      (t n u : String) (ns : List String)
      → has_column s t n ≡ false
      → all (has_column s u) ns ≡ true
      → same u t ≡ true
      → any (λ m. same m n) ns ≡ false
  missing_key t n u ns h e q =
      any-none (has_column s u) (λ m. same m n) ns
        (λ m there. ground (arith, same_eq u t, same_eq m n)) e

all_of_table :
    (t : String) (defs : List ColumnDef)
    → all (λ x. same x.table t) (map (table_column t) defs) ≡ true
all_of_table t [] = refl
all_of_table t (d ∷ defs) = ground (arith, same_refl t, all_of_table t defs)

module _ (s : Schema) (c : IsConsistent s) where
  pub drop_created_type :
      (t : EnumType)
      → has_type s t.name ≡ false
      → exec (drop_type t.name) (record s { types = s.types ++ t ∷ [] }) ≡ some s
  unfolding exec
  drop_created_type t absent = ground (
    arith,
    same_refl t.name,
    any-append (λ u. same u.name t.name) s.types (t ∷ []),
    filter-append_new (λ u. same u.name t.name) s.types (t ∷ []) absent,
    any-none (column_refers s) (λ x. is_of_type t.name x.def.data_type) s.columns
        (λ x h. of_missing_type s t.name x.def.data_type absent (ground arith)) c.columns,
  )

  pub drop_added_column :
      (t : String) (d : ColumnDef)
      → has_column s t d.name ≡ false
      → exec (drop_column t d.name) (record s { columns = s.columns ++ table_column t d ∷ [] })
        ≡ some s
  unfolding exec
  drop_added_column t d absent = ground (
    arith,
    same_refl t,
    same_refl d.name,
    any-append (is_column t d.name) s.columns (table_column t d ∷ []),
    filter-append_new (is_column t d.name) s.columns (table_column t d ∷ []) absent,
    any-none (constraint_refers s)
        (λ k. not (is_key_on t d.name k) && targets_column t d.name k.kind) s.constraints
        (λ k h. ground (arith, missing_column s t d.name k.kind absent)) c.constraints,
    filter-all (λ k. not (is_key_on t d.name k)) s.constraints
        (all_mono (constraint_refers s) _ s.constraints
          (λ k h. ground (arith, missing_key s t d.name k.table (key_columns k.kind) absent))
          c.constraints),
    filter-all (λ i. not (is_index_on t d.name i)) s.indexes
        (all_mono (index_refers s) _ s.indexes
          (λ i h. ground (
            arith,
            any-append (λ m. same m d.name) i.columns i.included,
            missing_key s t d.name i.table i.columns absent,
            missing_key s t d.name i.table i.included absent,
          ))
          c.indexes),
  )

  pub drop_added_constraint :
      (k : Constraint)
      → has_constraint s k.table k.name ≡ false
      → is_primary k.kind ≡ false
      → exec (drop_constraint k.table k.name) (record s { constraints = s.constraints ++ k ∷ [] })
        ≡ some s
  unfolding exec
  drop_added_constraint k absent foreign = ground (
    arith,
    same_refl k.table,
    same_refl k.name,
    any-append (is_constraint k.table k.name) s.constraints (k ∷ []),
    any-append (λ x. is_constraint k.table k.name x && is_primary x.kind) s.constraints (k ∷ []),
    any_weaken (is_constraint k.table k.name) (λ x. is_primary x.kind) s.constraints absent,
    filter-append_new (is_constraint k.table k.name) s.constraints (k ∷ []) absent,
  )

  pub drop_created_index :
      (i : Index)
      → has_index s i.name ≡ false
      → exec (drop_index false i.name) (record s { indexes = s.indexes ++ i ∷ [] }) ≡ some s
  unfolding exec
  drop_created_index i absent = ground (
    arith,
    same_refl i.name,
    any-append (λ u. same u.name i.name) s.indexes (i ∷ []),
    filter-append_new (λ u. same u.name i.name) s.indexes (i ∷ []) absent,
  )

  pub drop_created_table :
      (t : String) (defs : List ColumnDef) (k : Constraint)
      → has_table s t ≡ false
      → k.table ≡ t
      → is_primary k.kind ≡ true
      → exec (drop_table t) (record s {
        tables = s.tables ++ t ∷ [];
        columns = s.columns ++ map (table_column t) defs;
        constraints = s.constraints ++ k ∷ [];
      })
        ≡ some s
  unfolding exec
  drop_created_table t defs k absent own primary = ground (
    arith,
    same_refl t,
    any-append (λ u. same u t) s.tables (t ∷ []),
    any-append (λ x. not (same x.table t) && targets_table t x.kind) s.constraints (k ∷ []),
    any-none (constraint_refers s) (λ x. not (same x.table t) && targets_table t x.kind)
        s.constraints (λ x h. ground (arith, missing_target s t x.kind absent)) c.constraints,
    filter-append_new (λ u. same u t) s.tables (t ∷ []) absent,
    filter-append_new (λ x. same x.table t) s.columns (map (table_column t) defs)
        (any-none (column_refers s) _ s.columns (λ x h. any_same s t x.table (ground arith) absent)
          c.columns)
        (all_of_table t defs),
    filter-append_new (λ x. same x.table t) s.constraints (k ∷ [])
        (any-none (constraint_refers s) _ s.constraints
          (λ x h. any_same s t x.table (ground arith) absent) c.constraints)
        (rw own (ground (arith, same_refl t))),
    filter-all (λ i. not (same i.table t)) s.indexes
        (all_mono (index_refers s) _ s.indexes (λ x h. ground (arith, any_same s t x.table))
          c.indexes),
  )
