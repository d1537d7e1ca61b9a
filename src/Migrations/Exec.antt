-- ===== src/Migrations/Exec.antt =====
-- What the SQL statements of db/migrations do to a schema. A statement that Postgres refuses gives
-- none. The rows of the tables are left out, and so are the refusals that depend on them.
use osm_sync_tracker.Prelude.{
  Bool, Option, List, if◌then◌else◌, some, not, ◌∷◌, ◌++◌, none, [], ◌&&◌, any, filter, map, all,
  update_where,
}
use osm_sync_tracker.Migrations.Schema.{
  EnumType, Column, constraint_refers, has_column, has_constraint, has_index, has_table, has_type,
  index_refers, is_column, is_constraint, is_index_on, is_key_on, is_of_type, is_primary, is_typed,
  rename, retype, same, table_column, targets_column, targets_table, Schema, Statement, add_column,
  add_constraint, create_index, create_table, create_type, drop_column, drop_constraint, drop_index,
  drop_table, drop_type, rename_type, set_default, set_type, primary_key,
}

abbrev pub when_allowed : Bool → Schema → Option Schema
when_allowed b s = if b then some s else none

unfoldable pub exec : Statement → Schema → Option Schema
exec (create_type t) s =
    when_allowed (not (has_type s t.name)) (record s { types = s.types ++ t ∷ [] })
exec (drop_type n) s =
    when_allowed (has_type s n && not (any (λ c. is_of_type n c.def.data_type) s.columns))
      (record s { types = filter (λ t. not (same t.name n)) s.types })
exec (rename_type a b) s = when_allowed (has_type s a && not (has_type s b)) (record s {
  types = map {A = EnumType} (λ t. record t { name = rename a b t.name }) s.types;
  columns =
      map {A = Column}
        (λ c. record c { def = record c.def { data_type = retype a b c.def.data_type } }) s.columns;
})
exec (create_table t defs pk keys) s =
    when_allowed
      (not (has_table s t)
        && all (λ d. is_typed s d.data_type) defs
        && all (λ n. any (λ d. same d.name n) defs) keys)
      (record s {
        tables = s.tables ++ t ∷ [];
        columns = s.columns ++ map (table_column t) defs;
        constraints =
            s.constraints ++ record { table = t; name = pk; kind = primary_key keys } ∷ [];
      })
exec (drop_table t) s =
    when_allowed
      (has_table s t
        && not (any (λ k. not (same k.table t) && targets_table t k.kind) s.constraints))
      (record s {
        tables = filter (λ u. not (same u t)) s.tables;
        columns = filter (λ c. not (same c.table t)) s.columns;
        constraints = filter (λ k. not (same k.table t)) s.constraints;
        indexes = filter (λ i. not (same i.table t)) s.indexes;
      })
exec (add_column t d) s =
    when_allowed (has_table s t && not (has_column s t d.name) && is_typed s d.data_type)
      (record s { columns = s.columns ++ table_column t d ∷ [] })
exec (drop_column t n) s =
    when_allowed
      (has_column s t n
        && not (any (λ k. not (is_key_on t n k) && targets_column t n k.kind) s.constraints))
      (record s {
        columns = filter (λ c. not (is_column t n c)) s.columns;
        constraints = filter (λ k. not (is_key_on t n k)) s.constraints;
        indexes = filter (λ i. not (is_index_on t n i)) s.indexes;
      })
exec (set_type t n type) s = when_allowed (has_column s t n && is_typed s type) (record s {
  columns =
      update_where (is_column t n) (λ c. record c { def = record c.def { data_type = type } })
        s.columns;
})
exec (set_default t n value) s = when_allowed (has_column s t n) (record s {
  columns =
      update_where (is_column t n) (λ c. record c { def = record c.def { default = value } })
        s.columns;
})
exec (add_constraint k) s =
    when_allowed (not (has_constraint s k.table k.name) && constraint_refers s k)
      (record s { constraints = s.constraints ++ k ∷ [] })
exec (drop_constraint t n) s =
    when_allowed
      (has_constraint s t n
        && not (
            any (λ k. is_constraint t n k && is_primary k.kind) s.constraints
            && any (λ k. targets_table t k.kind) s.constraints))
      (record s { constraints = filter (λ k. not (is_constraint t n k)) s.constraints })
exec (create_index lenient i) s =
    if has_index s i.name
    then when_allowed lenient s
    else when_allowed (index_refers s i) (record s { indexes = s.indexes ++ i ∷ [] })
exec (drop_index lenient n) s =
    if has_index s n
    then some (record s { indexes = filter (λ i. not (same i.name n)) s.indexes })
    else when_allowed lenient s

-- A migration is one transaction: its statements one after another, or none.
unfoldable pub run : List Statement → Schema → Option Schema
run [] s = some s
run (st ∷ sts) s = elim (exec st s) [ none ↦ none | some s' ↦ run sts s' ]
