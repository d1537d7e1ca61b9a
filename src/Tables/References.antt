-- ===== src/Tables/References.antt =====
-- The foreign keys as an invariant of the database.
use osm_sync_tracker.Prelude.{
  Bool, true, false, not, Option, none, some, List, [], ◌∷◌, map, ◌≡◌, refl, arith, filter, any,
  all, contains, patch, ◌==◌, all_mono,
}
use osm_sync_tracker.Tables.Rows.{Uuid, SyncRow, FileRow, EntityRow, EntityHistoryRow, Db}
use osm_sync_tracker.Tables.Schema.{
  sync_refers, file_refers, entity_refers, history_refers, has_sync, has_file, has_changeset,
  nullable,
}

-- Every reference of a row names a row that is there.
pub record IsReferring (db : Db) : Type 0 where
  pub syncs : all (sync_refers db) db.syncs ≡ true
  pub files : all (file_refers db) db.files ≡ true
  pub entities : all (entity_refers db) db.entities ≡ true
  pub history : all (history_refers db) db.history ≡ true

-- What is there in one database is there in the other.
pub record Grows (db db' : Db) : Type 0 where
  pub syncs : (id : Uuid) → has_sync db id ≡ true → has_sync db' id ≡ true
  pub files : (id : Uuid) → has_file db id ≡ true → has_file db' id ≡ true
  pub changesets : (id : Uuid) → has_changeset db id ≡ true → has_changeset db' id ≡ true

module _ {A : Type 0} where
  -- A row whose key no deleted row has is still there.
  pub any-filter_kept :
      (key : A → Uuid) (p : A → Bool) (id : Uuid) (xs : List A)
      → any (λ x. key x == id) xs ≡ true
      → contains id (map key (filter p xs)) ≡ false
      → any (λ x. key x == id) (filter (λ x. not (p x)) xs) ≡ true
  any-filter_kept key p id [] h k = cc
  any-filter_kept key p id (x ∷ xs) h k = ground (arith, any-filter_kept key p id xs)

pub nullable_mono :
    (p q : Uuid → Bool) (o : Option Uuid)
    → ((id : Uuid) → p id ≡ true → q id ≡ true)
    → nullable p o ≡ true
    → nullable q o ≡ true
nullable_mono p q none imp h = refl
nullable_mono p q (some id) imp h = imp id h

-- A nullable column after an update that may leave it out.
pub nullable-patch :
    (p : Uuid → Bool) (new : Option (Option Uuid)) (old : Option Uuid)
    → nullable p (patch new none) ≡ true
    → nullable p old ≡ true
    → nullable p (patch new old) ≡ true
nullable-patch p none old h k = k
nullable-patch p (some new) old h k = h

module _ {db db' : Db} (g : Grows db db') where
  sync_refers_mono : (s : SyncRow) → sync_refers db s ≡ true → sync_refers db' s ≡ true
  sync_refers_mono s h = nullable_mono _ _ s.base_sync_id (λ b e. ground (arith, g.syncs b)) h

  file_refers_mono : (f : FileRow) → file_refers db f ≡ true → file_refers db' f ≡ true
  file_refers_mono f h = g.syncs f.sync_id h

  entity_refers_mono : (e : EntityRow) → entity_refers db e ≡ true → entity_refers db' e ≡ true
  entity_refers_mono e h = ground (
    arith,
    g.files e.file_id,
    nullable_mono (has_changeset db) (has_changeset db') e.changeset_id g.changesets,
  )

  history_refers_mono :
      (h : EntityHistoryRow) → history_refers db h ≡ true → history_refers db' h ≡ true
  history_refers_mono h e = ground (
    arith,
    g.syncs h.sync_id,
    g.files h.file_id,
    nullable_mono (has_sync db) (has_sync db') h.base_sync_id g.syncs,
    nullable_mono (has_changeset db) (has_changeset db') h.changeset_id g.changesets,
  )

  -- The rows of the new tables may refer to the old ones.
  pub Grows-IsReferring :
      all (sync_refers db) db'.syncs ≡ true
      → all (file_refers db) db'.files ≡ true
      → all (entity_refers db) db'.entities ≡ true
      → all (history_refers db) db'.history ≡ true
      → IsReferring db'
  Grows-IsReferring ss fs es hs = record {
    syncs = all_mono (sync_refers db) (sync_refers db') db'.syncs sync_refers_mono ss;
    files = all_mono (file_refers db) (file_refers db') db'.files file_refers_mono fs;
    entities = all_mono (entity_refers db) (entity_refers db') db'.entities entity_refers_mono es;
    history = all_mono (history_refers db) (history_refers db') db'.history history_refers_mono hs;
  }
