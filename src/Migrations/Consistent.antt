-- ===== src/Migrations/Consistent.antt =====
-- Schemas in which every part names parts that are there.
use package.text.Mathlib.TextEquality.{eq_iff}
use osm_sync_tracker.Prelude.{true, all, ◌≡◌, refl, arith, List, all_mono, String, ◌++◌, all-append}
use osm_sync_tracker.Migrations.Schema.{
  uuid, timestamp, integer, boolean, varchar, text, jsonb, enum, primary_key, foreign_key, Schema,
  same, column_refers, constraint_refers, index_refers, ConstraintKind, has_column, Index, has_type,
  Column, DataType, Constraint, has_target, has_table, key_columns, is_typed, enum, primary_key,
  foreign_key,
}

pub record IsConsistent (s : Schema) : Type 0 where
  pub columns : all (column_refers s) s.columns ≡ true
  pub constraints : all (constraint_refers s) s.constraints ≡ true
  pub indexes : all (index_refers s) s.indexes ≡ true

-- What one schema has, the other has.
pub record Grows (s s' : Schema) : Type 0 where
  pub types : (n : String) → has_type s n ≡ true → has_type s' n ≡ true
  pub tables : (t : String) → has_table s t ≡ true → has_table s' t ≡ true
  pub columns : (t n : String) → has_column s t n ≡ true → has_column s' t n ≡ true

pub same_eq : (a b : String) → same a b ≡ true → a ≡ b
same_eq a b = (eq_iff a b).0

pub same_refl : (a : String) → same a a ≡ true
same_refl a = (eq_iff a a).1 refl

module _ {s s' : Schema} (g : Grows s s') where
  is_typed_mono : (t : DataType) → is_typed s t ≡ true → is_typed s' t ≡ true
  is_typed_mono (enum n) h = g.types n h
  is_typed_mono uuid h = refl
  is_typed_mono timestamp h = refl
  is_typed_mono integer h = refl
  is_typed_mono boolean h = refl
  is_typed_mono varchar h = refl
  is_typed_mono text h = refl
  is_typed_mono jsonb h = refl

  has_target_mono : (k : ConstraintKind) → has_target s k ≡ true → has_target s' k ≡ true
  has_target_mono (primary_key ns) h = refl
  has_target_mono (foreign_key m t n d) h = ground (arith, g.tables t, g.columns t n)

  has_columns_mono :
      (t : String) (ns : List String)
      → all (has_column s t) ns ≡ true
      → all (has_column s' t) ns ≡ true
  has_columns_mono t ns = all_mono (has_column s t) (has_column s' t) ns (g.columns t)

  pub column_refers_mono : (c : Column) → column_refers s c ≡ true → column_refers s' c ≡ true
  column_refers_mono c h = ground (arith, g.tables c.table, is_typed_mono c.def.data_type)

  pub constraint_refers_mono :
      (k : Constraint) → constraint_refers s k ≡ true → constraint_refers s' k ≡ true
  constraint_refers_mono k h = ground (
    arith,
    g.tables k.table,
    has_columns_mono k.table (key_columns k.kind),
    has_target_mono k.kind,
  )

  pub index_refers_mono : (i : Index) → index_refers s i ≡ true → index_refers s' i ≡ true
  index_refers_mono i h = ground (
    arith,
    g.tables i.table,
    has_columns_mono i.table i.columns,
    has_columns_mono i.table i.included,
  )

  -- The parts of the new schema are parts of the old one, or new.
  pub Grows-IsConsistent :
      (cs : List Column) (ks : List Constraint) (is : List Index)
      → s'.columns ≡ s.columns ++ cs
      → s'.constraints ≡ s.constraints ++ ks
      → s'.indexes ≡ s.indexes ++ is
      → all (column_refers s') cs ≡ true
      → all (constraint_refers s') ks ≡ true
      → all (index_refers s') is ≡ true
      → IsConsistent s
      → IsConsistent s'
  Grows-IsConsistent cs ks is ec ek ei hc hk hi c = record {
    columns = rw ec (
        all-append (column_refers s') s.columns cs
          (all_mono (column_refers s) (column_refers s') s.columns column_refers_mono c.columns)
          hc);
    constraints = rw ek (
        all-append (constraint_refers s') s.constraints ks
          (all_mono (constraint_refers s) (constraint_refers s') s.constraints
            constraint_refers_mono c.constraints)
          hk);
    indexes = rw ei (
        all-append (index_refers s') s.indexes is
          (all_mono (index_refers s) (index_refers s') s.indexes index_refers_mono c.indexes) hi);
  }
