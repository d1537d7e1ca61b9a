-- ===== src/Migrations/Runs.antt =====
-- Runs of migrations: what they keep, and how a migration is taken back.
use osm_sync_tracker.Migrations.Exec.{run, exec}
use osm_sync_tracker.Migrations.Removed.{
  drop_constraint-IsConsistent, drop_index-IsConsistent, drop_table-IsConsistent,
  drop_type-IsConsistent,
}
use osm_sync_tracker.Migrations.Undo.{
  drop_created_type, drop_added_column, drop_added_constraint, drop_created_index,
  drop_created_table, only_creates, undo,
}
use osm_sync_tracker.Migrations.Columns.{
  rename_type-IsConsistent, drop_column-IsConsistent, set_column-IsConsistent,
}
use osm_sync_tracker.Migrations.Created.{
  create_type-IsConsistent, create_table-IsConsistent, add_column-IsConsistent,
  add_constraint-IsConsistent, create_index-IsConsistent,
}
use osm_sync_tracker.Migrations.Consistent.{IsConsistent}
use osm_sync_tracker.Prelude.{
  true, not, some, List, [], ◌∷◌, ◌≡◌, refl, arith, Option-cases, inl, inr,
}
use osm_sync_tracker.Migrations.Schema.{
  Schema, create_type, drop_type, rename_type, create_table, drop_table, add_column, drop_column,
  set_type, set_default, add_constraint, drop_constraint, create_index, drop_index, primary_key,
  Statement, is_column, is_constraint, same,
}

pub exec-IsConsistent :
    (st : Statement) (s s' : Schema) → IsConsistent s → exec st s ≡ some s' → IsConsistent s'
unfolding exec
exec-IsConsistent (create_type t) s s' c e = ground (arith, create_type-IsConsistent s c (t ∷ []))
exec-IsConsistent (drop_type n) s s' c e = ground (arith, drop_type-IsConsistent s c n)
exec-IsConsistent (rename_type a b) s s' c e = ground (arith, rename_type-IsConsistent a b s c)
exec-IsConsistent (create_table t defs pk keys) s s' c e =
    ground (arith, create_table-IsConsistent t s defs pk keys c)
exec-IsConsistent (drop_table t) s s' c e = ground (arith, drop_table-IsConsistent s t c)
exec-IsConsistent (add_column t d) s s' c e = ground (arith, add_column-IsConsistent s c t d)
exec-IsConsistent (drop_column t n) s s' c e = ground (arith, drop_column-IsConsistent s t n c)
exec-IsConsistent (set_type t n type) s s' c e = ground (
  arith,
  set_column-IsConsistent s c (is_column t n) (λ d. record d { data_type = type }) (λ d. refl),
)
exec-IsConsistent (set_default t n value) s s' c e = ground (
  arith,
  set_column-IsConsistent s c (is_column t n) (λ d. record d { default = value }) (λ d. refl)
      (λ d h. h),
)
exec-IsConsistent (add_constraint k) s s' c e = ground (arith, add_constraint-IsConsistent s c k)
exec-IsConsistent (drop_constraint t n) s s' c e =
    ground (arith, drop_constraint-IsConsistent s c (λ k. not (is_constraint t n k)))
exec-IsConsistent (create_index lenient i) s s' c e =
    ground (arith, create_index-IsConsistent s c i)
exec-IsConsistent (drop_index lenient n) s s' c e =
    ground (arith, drop_index-IsConsistent s c (λ i. not (same i.name n)))

pub run-IsConsistent :
    (sts : List Statement) (s s' : Schema) → IsConsistent s → run sts s ≡ some s' → IsConsistent s'
unfolding run
run-IsConsistent [] s s' c e = ground arith
run-IsConsistent (st ∷ sts) s s' c e = elim (Option-cases (exec st s)) [
  | inl refused ↦ ground arith
  | inr (s1, done) ↦ run-IsConsistent sts s1 s' (exec-IsConsistent st s s1 c done) (ground arith)
]

pub exec-undo :
    (st : Statement) (s s' : Schema)
    → only_creates st ≡ true
    → IsConsistent s
    → exec st s ≡ some s'
    → exec (undo st) s' ≡ some s
unfolding only_creates undo exec
exec-undo (create_type t) s s' o c e = ground (arith, drop_created_type s c t)
exec-undo (create_table t defs pk keys) s s' o c e = ground (
  arith,
  exec,
  drop_created_table s c t defs (record { table = t; name = pk; kind = primary_key keys }),
)
exec-undo (add_column t d) s s' o c e = ground (arith, drop_added_column s c t d)
exec-undo (add_constraint k) s s' o c e = ground (arith, drop_added_constraint s c k)
exec-undo (create_index lenient i) s s' o c e = ground (arith, drop_created_index s c i)
exec-undo (drop_type n) s s' o c e = cc
exec-undo (rename_type a b) s s' o c e = cc
exec-undo (drop_table t) s s' o c e = cc
exec-undo (drop_column t n) s s' o c e = cc
exec-undo (set_type t n type) s s' o c e = cc
exec-undo (set_default t n value) s s' o c e = cc
exec-undo (drop_constraint t n) s s' o c e = cc
exec-undo (drop_index lenient n) s s' o c e = cc
