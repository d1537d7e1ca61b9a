-- ===== src/Migrations/Columns.antt =====
-- The statements that drop a column, change one or rename a type, on consistent schemas.
use osm_sync_tracker.Migrations.Consistent.{IsConsistent, same_eq, same_refl}
use osm_sync_tracker.Prelude.{
  Bool, true, false, not, List, [], ◌∷◌, map, ◌≡◌, refl, arith, any, all, filter, String,
  any-filter_other, all_both, all-filter_self, any-update_where_same, all-update_where,
  update_where, ◌&&◌, any-append, all_mono, all-filter_kept,
}
use osm_sync_tracker.Migrations.Schema.{
  Schema, primary_key, foreign_key, uuid, timestamp, integer, boolean, varchar, text, jsonb, enum,
  Column, has_table, DataType, EnumType, is_column, same, ConstraintKind, is_typed, has_target,
  column_refers, rename, retype, ColumnDef, has_column, is_key_on, targets_column, is_index_on,
  constraint_refers, key_columns, index_refers,
}

-- The schema without a column.
abbrev pub without_column : String → String → Schema → Schema
without_column t n s = record s {
  columns = filter (λ c. not (is_column t n c)) s.columns;
  constraints = filter (λ k. not (is_key_on t n k)) s.constraints;
  indexes = filter (λ i. not (is_index_on t n i)) s.indexes;
}

module _ (s : Schema) (t n : String) where
  other_column :
      (u m : String)
      → (same u t && same m n) ≡ false
      → has_column s u m ≡ true
      → has_column (without_column t n s) u m ≡ true
  other_column u m other =
      any-filter_other (is_column u m) (λ x. not (is_column t n x)) s.columns
        (λ x e. ground (arith, same_eq x.table u, same_eq x.def.name m))

  other_columns :
      (u : String) (ms : List String)
      → (same u t && any (λ m. same m n) ms) ≡ false
      → all (has_column s u) ms ≡ true
      → all (has_column (without_column t n s) u) ms ≡ true
  other_columns u [] other h = refl
  other_columns u (m ∷ ms) other h = ground (arith, other_column u m, other_columns u ms)

  other_target :
      (k : ConstraintKind)
      → has_target s k ≡ true
      → targets_column t n k ≡ false
      → has_target (without_column t n s) k ≡ true
  other_target (primary_key ns) h e = refl
  other_target (foreign_key m u v d) h e = ground (arith, other_column u v)

  pub drop_column-IsConsistent :
      IsConsistent s
      → any (λ k. not (is_key_on t n k) && targets_column t n k.kind) s.constraints ≡ false
      → IsConsistent (without_column t n s)
  drop_column-IsConsistent c free =
      let s' = without_column t n s in
      record {
        columns = all-filter_kept (column_refers s) _ s.columns c.columns;
        constraints =
            all-filter_self
              (λ k.
                constraint_refers s k && not (not (is_key_on t n k) && targets_column t n k.kind))
              (λ k. not (is_key_on t n k)) (constraint_refers s') s.constraints
              (λ k h e.
                ground (arith, other_columns k.table (key_columns k.kind), other_target k.kind))
              (all_both (constraint_refers s)
                (λ k. not (is_key_on t n k) && targets_column t n k.kind) _ s.constraints
                (λ k h e. ground arith) c.constraints free);
        indexes =
            all-filter_self (index_refers s) (λ i. not (is_index_on t n i)) (index_refers s')
              s.indexes
              (λ i h e. ground (
                arith,
                any-append (λ m. same m n) i.columns i.included,
                other_columns i.table i.columns,
                other_columns i.table i.included,
              ))
              c.indexes;
      }

-- Columns that stay under their names.
module _ (s s' : Schema) (tables : (u : String) → has_table s' u ≡ has_table s u)
    (columns : (u m : String) → has_column s' u m ≡ has_column s u m) where
  same_columns :
      (u : String) (ms : List String)
      → all (has_column s u) ms ≡ true
      → all (has_column s' u) ms ≡ true
  same_columns u ms = all_mono (has_column s u) (has_column s' u) ms (λ m h. rw (columns u m) h)

  same_target : (k : ConstraintKind) → has_target s k ≡ true → has_target s' k ≡ true
  same_target (primary_key ns) h = refl
  same_target (foreign_key m u v d) h = rw (tables u, columns u v) h

  columns_set :
      IsConsistent s
      → s'.constraints ≡ s.constraints
      → s'.indexes ≡ s.indexes
      → all (column_refers s') s'.columns ≡ true
      → IsConsistent s'
  columns_set c ek ei h = record {
    columns = h;
    constraints = rw ek (
        all_mono (constraint_refers s) (constraint_refers s') s.constraints
          (λ k e.
            ground (
              arith,
              tables k.table,
              same_columns k.table (key_columns k.kind),
              same_target k.kind,
            ))
          c.constraints);
    indexes = rw ei (
        all_mono (index_refers s) (index_refers s') s.indexes
          (λ i e. ground (
            arith,
            tables i.table,
            same_columns i.table i.columns,
            same_columns i.table i.included,
          ))
          c.indexes);
  }

module _ (s : Schema) (c : IsConsistent s) where
  -- A change of a column's type or default.
  pub set_column-IsConsistent :
      (p : Column → Bool) (f : ColumnDef → ColumnDef)
      → ((d : ColumnDef) → (f d).name ≡ d.name)
      → ((d : ColumnDef) → is_typed s d.data_type ≡ true → is_typed s (f d).data_type ≡ true)
      → IsConsistent
          (record s { columns = update_where p (λ x. record x { def = f x.def }) s.columns })
  set_column-IsConsistent p f same_name typed =
      columns_set s _ (λ u. refl)
        (λ u m.
          any-update_where_same (is_column u m) p (λ x. record x { def = f x.def }) s.columns
            (λ x. rw (same_name x.def)))
        c refl refl
        (all-update_where (column_refers s) p (λ x. record x { def = f x.def }) s.columns
          (λ x h. ground (arith, typed x.def)) c.columns)

-- A type under its new name.
abbrev pub with_type_renamed : String → String → Schema → Schema
with_type_renamed a b s = record s {
  types = map {A = EnumType} (λ t. record t { name = rename a b t.name }) s.types;
  columns =
      map {A = Column}
        (λ c. record c { def = record c.def { data_type = retype a b c.def.data_type } }) s.columns;
}

module _ (a b : String) (s : Schema) where
  renamed_type :
      (n : String) (ts : List EnumType)
      → any (λ t. same t.name n) ts ≡ true
      → any
          (λ t. same t.name (rename a b n))
          (map {A = EnumType} (λ t. record t { name = rename a b t.name }) ts)
        ≡ true
  renamed_type n [] h = h
  renamed_type n (t ∷ ts) h =
      ground (arith, same_eq t.name n, same_refl (rename a b n), renamed_type n ts)

  renamed_typed :
      (t : DataType)
      → is_typed s t ≡ true
      → is_typed (with_type_renamed a b s) (retype a b t) ≡ true
  renamed_typed (enum n) h = renamed_type n s.types h
  renamed_typed uuid h = refl
  renamed_typed timestamp h = refl
  renamed_typed integer h = refl
  renamed_typed boolean h = refl
  renamed_typed varchar h = refl
  renamed_typed text h = refl
  renamed_typed jsonb h = refl

  renamed_columns :
      (cs : List Column)
      → all (column_refers s) cs ≡ true
      → all (column_refers (with_type_renamed a b s)) (
          map {A = Column}
            (λ c. record c { def = record c.def { data_type = retype a b c.def.data_type } })
            cs)
        ≡ true
  renamed_columns [] h = refl
  renamed_columns (x ∷ cs) h = ground (arith, renamed_typed x.def.data_type, renamed_columns cs)

  same_named :
      (u m : String) (cs : List Column)
      → any (is_column u m) (
          map {A = Column}
            (λ c. record c { def = record c.def { data_type = retype a b c.def.data_type } })
            cs)
        ≡ any (is_column u m) cs
  same_named u m [] = refl
  same_named u m (x ∷ cs) = ground (arith, same_named u m cs)

  pub rename_type-IsConsistent : IsConsistent s → IsConsistent (with_type_renamed a b s)
  rename_type-IsConsistent c =
      columns_set s (with_type_renamed a b s) (λ u. refl) (λ u m. same_named u m s.columns) c refl
        refl (renamed_columns s.columns c.columns)
