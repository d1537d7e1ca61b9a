-- ===== src/Migrations/Schema.antt =====
-- The schema that db/migrations builds, and the SQL statements that it uses. The catalogue is flat: a
-- column, a constraint and an index name their table.
use package.text.Mathlib.Text.{◌==◌ as str_eq}
use osm_sync_tracker.Prelude.{
  Bool, true, false, ◌&&◌, Option, List, [], ◌∷◌, ◌++◌, any, all, String, if◌then◌else◌,
}

pub data DataType : Type 0 where
  uuid timestamp integer boolean varchar text jsonb : DataType
  enum : String → DataType

pub record EnumType : Type 0 where
  pub name : String
  pub values : List String

pub record ColumnDef : Type 0 where
  pub name : String
  pub data_type : DataType
  pub not_null : Bool
  pub default : Option String

pub record Column : Type 0 where
  pub table : String
  pub def : ColumnDef

pub data OnDelete : Type 0 where
  no_action cascade : OnDelete

-- A foreign key has its column, the table and the column that it refers to.
pub data ConstraintKind : Type 0 where
  primary_key : List String → ConstraintKind
  foreign_key : String → String → String → OnDelete → ConstraintKind

pub record Constraint : Type 0 where
  pub table : String
  pub name : String
  pub kind : ConstraintKind

pub record Index : Type 0 where
  pub name : String
  pub table : String
  pub unique : Bool
  pub columns : List String
  pub included : List String
  pub condition : Option String

pub record Schema : Type 0 where
  pub types : List EnumType
  pub tables : List String
  pub columns : List Column
  pub constraints : List Constraint
  pub indexes : List Index

-- A name of a table comes before the name of a part of it. The Boolean of an index statement is its
-- IF NOT EXISTS or IF EXISTS.
pub data Statement : Type 0 where
  create_type : EnumType → Statement
  drop_type : String → Statement
  rename_type : String → String → Statement
  create_table : String → List ColumnDef → String → List String → Statement
  drop_table : String → Statement
  add_column : String → ColumnDef → Statement
  drop_column : String → String → Statement
  set_type : String → String → DataType → Statement
  set_default : String → String → Option String → Statement
  add_constraint : Constraint → Statement
  drop_constraint : String → String → Statement
  create_index : Bool → Index → Statement
  drop_index : Bool → String → Statement

abbrev pub same : String → String → Bool
same a b = str_eq a b

abbrev pub has_type : Schema → String → Bool
has_type s n = any (λ t. same t.name n) s.types

abbrev pub has_table : Schema → String → Bool
has_table s n = any (λ t. same t n) s.tables

abbrev pub is_column : String → String → Column → Bool
is_column t n c = same c.table t && same c.def.name n

abbrev pub has_column : Schema → String → String → Bool
has_column s t n = any (is_column t n) s.columns

abbrev pub is_constraint : String → String → Constraint → Bool
is_constraint t n k = same k.table t && same k.name n

abbrev pub has_constraint : Schema → String → String → Bool
has_constraint s t n = any (is_constraint t n) s.constraints

abbrev pub has_index : Schema → String → Bool
has_index s n = any (λ i. same i.name n) s.indexes

abbrev pub is_of_type : String → DataType → Bool
is_of_type n (enum m) = same m n
is_of_type n _ = false

abbrev pub is_typed : Schema → DataType → Bool
is_typed s (enum n) = has_type s n
is_typed s _ = true

abbrev pub key_columns : ConstraintKind → List String
key_columns (primary_key ns) = ns
key_columns (foreign_key n _ _ _) = n ∷ []

abbrev pub is_primary : ConstraintKind → Bool
is_primary (primary_key _) = true
is_primary _ = false

abbrev pub has_target : Schema → ConstraintKind → Bool
has_target s (primary_key _) = true
has_target s (foreign_key _ t n _) = has_table s t && has_column s t n

abbrev pub targets_table : String → ConstraintKind → Bool
targets_table t (primary_key _) = false
targets_table t (foreign_key _ u _ _) = same u t

abbrev pub targets_column : String → String → ConstraintKind → Bool
targets_column t n (primary_key _) = false
targets_column t n (foreign_key _ u m _) = same u t && same m n

abbrev pub column_def : String → DataType → Bool → Option String → ColumnDef
column_def n t not_null default = record {
  name = n;
  data_type = t;
  not_null = not_null;
  default = default;
}

abbrev pub table_column : String → ColumnDef → Column
table_column t d = record { table = t; def = d }

abbrev pub foreign : String → String → String → String → String → OnDelete → Constraint
foreign t name n u m d = record { table = t; name = name; kind = foreign_key n u m d }

abbrev pub index : String → String → Bool → List String → List String → Option String → Index
index n t unique columns included condition = record {
  name = n;
  table = t;
  unique = unique;
  columns = columns;
  included = included;
  condition = condition;
}

-- What a column, a constraint and an index need to be there.
abbrev pub column_refers : Schema → Column → Bool
column_refers s c = has_table s c.table && is_typed s c.def.data_type

abbrev pub constraint_refers : Schema → Constraint → Bool
constraint_refers s k =
    has_table s k.table && all (has_column s k.table) (key_columns k.kind) && has_target s k.kind

abbrev pub index_refers : Schema → Index → Bool
index_refers s i =
    has_table s i.table
    && all (has_column s i.table) i.columns
    && all (has_column s i.table) i.included

-- A constraint and an index on a column.
abbrev pub is_key_on : String → String → Constraint → Bool
is_key_on t n k = same k.table t && any (λ m. same m n) (key_columns k.kind)

abbrev pub is_index_on : String → String → Index → Bool
is_index_on t n i = same i.table t && any (λ m. same m n) (i.columns ++ i.included)

abbrev pub rename : String → String → String → String
rename a b n = if same n a then b else n

abbrev pub retype : String → String → DataType → DataType
retype a b (enum n) = enum (rename a b n)
retype a b t = t
