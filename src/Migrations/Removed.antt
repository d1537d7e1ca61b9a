-- ===== src/Migrations/Removed.antt =====
-- The statements that remove, on consistent schemas.
use osm_sync_tracker.Migrations.Consistent.{IsConsistent, same_eq}
use osm_sync_tracker.Prelude.{
  Bool, true, false, not, List, ◌≡◌, refl, arith, any, all, filter, String, any-filter_other,
  all_both, all-filter_self, ◌&&◌, all_mono, all-filter_kept,
}
use osm_sync_tracker.Migrations.Schema.{
  Schema, primary_key, foreign_key, uuid, timestamp, integer, boolean, varchar, text, jsonb, enum,
  ConstraintKind, same, DataType, has_column, has_table, Constraint, is_of_type, Index, has_target,
  targets_table, column_refers, is_column, is_typed, index_refers, constraint_refers, key_columns,
}

module _ (s : Schema) (c : IsConsistent s) where
  drop_type-is_typed :
      (n : String) (t : DataType)
      → is_typed s t ≡ true
      → is_of_type n t ≡ false
      → is_typed (record s { types = filter (λ u. not (same u.name n)) s.types }) t ≡ true
  drop_type-is_typed n (enum m) h k =
      any-filter_other (λ u. same u.name m) (λ u. not (same u.name n)) s.types
        (λ u e. ground (arith, same_eq u.name m)) h
  drop_type-is_typed n uuid h k = refl
  drop_type-is_typed n timestamp h k = refl
  drop_type-is_typed n integer h k = refl
  drop_type-is_typed n boolean h k = refl
  drop_type-is_typed n varchar h k = refl
  drop_type-is_typed n text h k = refl
  drop_type-is_typed n jsonb h k = refl

  pub drop_type-IsConsistent :
      (n : String)
      → any (λ x. is_of_type n x.def.data_type) s.columns ≡ false
      → IsConsistent (record s { types = filter (λ t. not (same t.name n)) s.types })
  drop_type-IsConsistent n unused = record {
    columns =
        all_both (column_refers s) (λ x. is_of_type n x.def.data_type) _ s.columns
          (λ x h k. ground (arith, drop_type-is_typed n x.def.data_type)) c.columns unused;
    constraints = c.constraints;
    indexes = c.indexes;
  }

  pub drop_constraint-IsConsistent :
      (p : Constraint → Bool) → IsConsistent (record s { constraints = filter p s.constraints })
  drop_constraint-IsConsistent p = record {
    columns = c.columns;
    constraints = all-filter_kept (constraint_refers s) p s.constraints c.constraints;
    indexes = c.indexes;
  }

  pub drop_index-IsConsistent :
      (p : Index → Bool) → IsConsistent (record s { indexes = filter p s.indexes })
  drop_index-IsConsistent p = record {
    columns = c.columns;
    constraints = c.constraints;
    indexes = all-filter_kept (index_refers s) p s.indexes c.indexes;
  }

-- The schema without a table.
abbrev pub without_table : String → Schema → Schema
without_table t s = record s {
  tables = filter (λ u. not (same u t)) s.tables;
  columns = filter (λ c. not (same c.table t)) s.columns;
  constraints = filter (λ k. not (same k.table t)) s.constraints;
  indexes = filter (λ i. not (same i.table t)) s.indexes;
}

module _ (s : Schema) (t : String) where
  other_table :
      (u : String)
      → same u t ≡ false
      → has_table s u ≡ true
      → has_table (without_table t s) u ≡ true
  other_table u other =
      any-filter_other (λ v. same v u) (λ v. not (same v t)) s.tables
        (λ v e. ground (arith, same_eq v u))

  other_column :
      (u n : String)
      → same u t ≡ false
      → has_column s u n ≡ true
      → has_column (without_table t s) u n ≡ true
  other_column u n other =
      any-filter_other (is_column u n) (λ x. not (same x.table t)) s.columns
        (λ x e. ground (arith, same_eq x.table u))

  other_columns :
      (u : String) (ns : List String)
      → same u t ≡ false
      → all (has_column s u) ns ≡ true
      → all (has_column (without_table t s) u) ns ≡ true
  other_columns u ns other =
      all_mono (has_column s u) (has_column (without_table t s) u) ns (λ n. other_column u n other)

  other_target :
      (k : ConstraintKind)
      → has_target s k ≡ true
      → targets_table t k ≡ false
      → has_target (without_table t s) k ≡ true
  other_target (primary_key ns) h e = refl
  other_target (foreign_key m u n d) h e = ground (arith, other_table u, other_column u n)

  pub drop_table-IsConsistent :
      IsConsistent s
      → any (λ k. not (same k.table t) && targets_table t k.kind) s.constraints ≡ false
      → IsConsistent (without_table t s)
  drop_table-IsConsistent c free =
      let s' = without_table t s in
      record {
        columns =
            all-filter_self (column_refers s) (λ x. not (same x.table t)) (column_refers s')
              s.columns (λ x h e. ground (arith, other_table x.table)) c.columns;
        constraints =
            all-filter_self
              (λ k. constraint_refers s k && not (not (same k.table t) && targets_table t k.kind))
              (λ k. not (same k.table t)) (constraint_refers s') s.constraints
              (λ k h e. ground (
                arith,
                other_table k.table,
                other_columns k.table (key_columns k.kind),
                other_target k.kind,
              ))
              (all_both (constraint_refers s) (λ k. not (same k.table t) && targets_table t k.kind)
                _ s.constraints (λ k h e. ground arith) c.constraints free);
        indexes =
            all-filter_self (index_refers s) (λ i. not (same i.table t)) (index_refers s') s.indexes
              (λ i h e. ground (
                arith,
                other_table i.table,
                other_columns i.table i.columns,
                other_columns i.table i.included,
              ))
              c.indexes;
      }
