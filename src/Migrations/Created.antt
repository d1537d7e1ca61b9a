-- ===== src/Migrations/Created.antt =====
-- The statements that create, on consistent schemas.
use osm_sync_tracker.Migrations.Consistent.{IsConsistent, Grows-IsConsistent, same_refl}
use osm_sync_tracker.Prelude.{
  true, List, [], ◌∷◌, ◌++◌, ◌≡◌, refl, arith, any, all, map, append-nil, sym, String, any-grown,
  any-new, all_mono,
}
use osm_sync_tracker.Migrations.Schema.{
  Schema, primary_key, Column, ColumnDef, Constraint, EnumType, same, Index, has_table, is_typed,
  is_column, column_refers, index_refers, constraint_refers, table_column,
}

columns_refer :
    (t : String) (defs : List ColumnDef) (s' : Schema)
    → has_table s' t ≡ true
    → all (λ d. is_typed s' d.data_type) defs ≡ true
    → all (column_refers s') (map (table_column t) defs) ≡ true
columns_refer t [] s' h k = refl
columns_refer t (d ∷ defs) s' h k = ground (arith, columns_refer t defs s')

module _ (s : Schema) (c : IsConsistent s) where
  pub create_type-IsConsistent :
      (ts : List EnumType) → IsConsistent (record s { types = s.types ++ ts })
  create_type-IsConsistent ts =
      Grows-IsConsistent {s = s}
        (record { types = λ n. any-grown _ s.types ts; tables = λ t h. h; columns = λ t n h. h }) []
        [] [] (sym (append-nil s.columns)) (sym (append-nil s.constraints))
        (sym (append-nil s.indexes)) refl refl refl c

  pub add_column-IsConsistent :
      (t : String) (d : ColumnDef)
      → has_table s t ≡ true
      → is_typed s d.data_type ≡ true
      → IsConsistent (record s { columns = s.columns ++ table_column t d ∷ [] })
  add_column-IsConsistent t d there typed =
      Grows-IsConsistent {s = s}
        (record {
          types = λ n h. h;
          tables = λ t h. h;
          columns = λ u n. any-grown _ s.columns (table_column t d ∷ []);
        })
        (table_column t d ∷ []) [] [] refl (sym (append-nil s.constraints))
        (sym (append-nil s.indexes)) (ground arith) refl refl c

  pub add_constraint-IsConsistent :
      (k : Constraint)
      → constraint_refers s k ≡ true
      → IsConsistent (record s { constraints = s.constraints ++ k ∷ [] })
  add_constraint-IsConsistent k h =
      Grows-IsConsistent {s = s}
        (record { types = λ n h. h; tables = λ t h. h; columns = λ t n h. h }) [] (k ∷ []) []
        (sym (append-nil s.columns)) refl (sym (append-nil s.indexes)) refl (ground arith) refl c

  pub create_index-IsConsistent :
      (i : Index)
      → index_refers s i ≡ true
      → IsConsistent (record s { indexes = s.indexes ++ i ∷ [] })
  create_index-IsConsistent i h =
      Grows-IsConsistent {s = s}
        (record { types = λ n h. h; tables = λ t h. h; columns = λ t n h. h }) [] [] (i ∷ [])
        (sym (append-nil s.columns)) (sym (append-nil s.constraints)) refl refl refl (ground arith)
        c

module _ (t : String) where
  -- A named column of a new table is a column of the schema.
  has_new_column :
      (n : String) (defs : List ColumnDef)
      → any (λ d. same d.name n) defs ≡ true
      → any (is_column t n) (map (table_column t) defs) ≡ true
  has_new_column n [] h = h
  has_new_column n (d ∷ defs) h = ground (arith, same_refl t, has_new_column n defs)

  has_new_columns :
      (cs : List Column) (keys : List String) (defs : List ColumnDef)
      → all (λ n. any (λ d. same d.name n) defs) keys ≡ true
      → all (λ n. any (is_column t n) (cs ++ map (table_column t) defs)) keys ≡ true
  has_new_columns cs keys defs =
      all_mono (λ n. any (λ d. same d.name n) defs) _ keys
        (λ n h. any-new (is_column t n) cs (map (table_column t) defs) (has_new_column n defs h))

  pub create_table-IsConsistent :
      (s : Schema) (defs : List ColumnDef) (pk : String) (keys : List String)
      → IsConsistent s
      → all (λ d. is_typed s d.data_type) defs ≡ true
      → all (λ n. any (λ d. same d.name n) defs) keys ≡ true
      → IsConsistent (record s {
        tables = s.tables ++ t ∷ [];
        columns = s.columns ++ map (table_column t) defs;
        constraints =
            s.constraints ++ record { table = t; name = pk; kind = primary_key keys } ∷ [];
      })
  create_table-IsConsistent s defs pk keys c typed keyed =
      let s' : Schema = record s {
        tables = s.tables ++ t ∷ [];
        columns = s.columns ++ map (table_column t) defs;
        constraints =
            s.constraints ++ record { table = t; name = pk; kind = primary_key keys } ∷ [];
      } in
      let there : has_table s' t ≡ true =
        any-new (λ u. same u t) s.tables (t ∷ []) (ground (arith, same_refl t)) in
      Grows-IsConsistent {s = s} {s' = s'}
        (record {
          types = λ n h. h;
          tables = λ u. any-grown _ s.tables (t ∷ []);
          columns = λ u n. any-grown _ s.columns (map (table_column t) defs);
        })
        (map (table_column t) defs) (record { table = t; name = pk; kind = primary_key keys } ∷ [])
        [] refl refl (sym (append-nil s.indexes)) (columns_refer t defs s' there typed)
        (ground (arith, there, has_new_columns s.columns keys defs keyed)) refl c
